-- ===== src/Blueprint/Check.antt =====
-- Validation against an independent description of a well-formed blueprint.
use sandboxmatrix.Base.{
  String, ◌≡◌, refl, ◌≢◌, ◌↔◌, Bool, true, false, Option, none, some, List, [], ◌∷◌, ◌++◌, arith,
  str_eq, eq_iff, Bool-cases, inl, inr,
}
use sandboxmatrix.Base.Int.{pos, is_pos}
use sandboxmatrix.Base.Action.{Error}
use sandboxmatrix.Api.{Blueprint, GpuSpec, ProbeConfig, DeviceMapping}
use sandboxmatrix.Blueprint.Validate.{
  validate, header_errors, gpu_errors, device_errors, probe_errors, error_if,
}

pub data ProbeOk (p : ProbeConfig) : Type 0 where
  runs_command : p.type ≡ "exec" → p.command ≢ [] → ProbeOk p
  asks_http : p.type ≡ "http" → p.port ≢ pos 0 → ProbeOk p
  asks_tcp : p.type ≡ "tcp" → p.port ≢ pos 0 → ProbeOk p

abbrev pub All {ℓ κ} : {A : Type ℓ} → (A → Type κ) → List A → Type κ
All P [] = Unit
All P (x ∷ xs) = P x × All P xs

abbrev pub IfSome {ℓ κ} : {A : Type ℓ} → (A → Type κ) → Option A → Type κ
IfSome P none = Unit
IfSome P (some a) = P a

pub record IsWellFormed (bp : Blueprint) : Type 0 where
  pub version : bp.type_meta.api_version ≡ "smx/v1alpha1"
  pub kind : bp.type_meta.kind ≡ "Blueprint"
  pub named : bp.metadata.name ≢ ""
  pub based : bp.spec.base ≢ ""
  pub runs_on : bp.spec.runtime ≢ ""
  pub not_stub : bp.spec.runtime ≢ "firecracker"
  pub gpus : IfSome (λ g. is_pos g.count ≡ true) bp.spec.resources.gpu
  pub devices : All (λ d. d.host_path ≢ "") bp.spec.devices
  pub probe : IfSome ProbeOk bp.spec.readiness_probe

append-nil_iff : (xs ys : List Error) → (xs ++ ys ≡ []) → (xs ≡ []) × (ys ≡ [])
append-nil_iff [] ys h = (refl, h)
append-nil_iff (x ∷ xs) ys h = (cc, cc)

devices_ok : (ds : List DeviceMapping) → device_errors ds ≡ [] → All (λ d. d.host_path ≢ "") ds
unfolding device_errors
devices_ok [] h = tt
devices_ok (d ∷ ds) h = ((λ e. ground (arith, eq_iff d.host_path "")), devices_ok ds (ground arith))

devices_no_error :
    (ds : List DeviceMapping) → All (λ d. d.host_path ≢ "") ds → device_errors ds ≡ []
unfolding device_errors
devices_no_error [] h = refl
devices_no_error (d ∷ ds) h = ground (arith, eq_iff d.host_path "", devices_no_error ds h.1, h.0)

probe_ok : (p : Option ProbeConfig) → probe_errors p ≡ [] → IfSome ProbeOk p
unfolding probe_errors
probe_ok none h = tt
probe_ok (some p) h = elim (Bool-cases (str_eq p.type "exec")) [
  | inl e ↦ runs_command ((eq_iff p.type "exec").0 e) (ground arith)
  | inr ne ↦ elim (Bool-cases (str_eq p.type "http")) [
    | inl e ↦ asks_http ((eq_iff p.type "http").0 e) (ground arith)
    | inr nh ↦ asks_tcp (ground (arith, eq_iff p.type "tcp")) (ground arith)
  ]
]

probe_no_error : (p : Option ProbeConfig) → IfSome ProbeOk p → probe_errors p ≡ []
unfolding probe_errors
probe_no_error none h = refl
probe_no_error (some p) (runs_command t n) = rw t (ground arith)
probe_no_error (some p) (asks_http t n) = rw t (ground arith)
probe_no_error (some p) (asks_tcp t n) = rw t (ground arith)

errors_none : (b : Bool) (e : Error) → error_if b e ≡ [] → b ≡ false
errors_none true e h = cc
errors_none false e h = refl

header_ok :
    (bp : Blueprint)
    → header_errors bp ≡ []
    → (bp.type_meta.api_version ≡ "smx/v1alpha1")
      × (bp.type_meta.kind ≡ "Blueprint")
      × (str_eq bp.metadata.name "" ≡ false)
      × (str_eq bp.spec.base "" ≡ false)
      × (str_eq bp.spec.runtime "" ≡ false)
      × (str_eq bp.spec.runtime "firecracker" ≡ false)
unfolding header_errors
header_ok bp h =
    ground
      (arith, eq_iff bp.type_meta.api_version "smx/v1alpha1", eq_iff bp.type_meta.kind "Blueprint")

ne_of_test : (s t : String) → str_eq s t ≡ false → s ≢ t
ne_of_test s t h e = ground (arith, eq_iff s t)

test_of_ne : (s t : String) → s ≢ t → str_eq s t ≡ false
test_of_ne s t n = ground (arith, eq_iff s t)

header_no_error : (bp : Blueprint) → IsWellFormed bp → header_errors bp ≡ []
unfolding header_errors
header_no_error bp v = rw (
  v.version,
  v.kind,
  test_of_ne bp.metadata.name "" v.named,
  test_of_ne bp.spec.base "" v.based,
  test_of_ne bp.spec.runtime "" v.runs_on,
  test_of_ne bp.spec.runtime "firecracker" v.not_stub,
)

gpu_ok : (g : Option GpuSpec) → (gpu_errors g ≡ []) ↔ IfSome (λ g. is_pos g.count ≡ true) g
unfolding gpu_errors
gpu_ok none = ((λ h. tt), (λ h. refl))
gpu_ok (some g) = ((λ h. ground arith), (λ h. ground arith))

-- Validate reports no error exactly when the blueprint has the expected version and kind, a name, a
-- base and a runtime that is not firecracker, a positive number of GPUs if any are asked for, a
-- host path for every device, and a probe of type exec with a command, or http or tcp with a port,
-- if any.
pub validate-IsWellFormed : (bp : Blueprint) → (validate bp ≡ []) ↔ IsWellFormed bp
unfolding validate
validate-IsWellFormed bp = (forth, back)
  where
    forth : validate bp ≡ [] → IsWellFormed bp
    forth h =
        let (r1, p) =
          append-nil_iff
            ((header_errors bp ++ gpu_errors bp.spec.resources.gpu)
              ++ device_errors bp.spec.devices)
            (probe_errors bp.spec.readiness_probe) h in
        let (r2, d) =
          append-nil_iff (header_errors bp ++ gpu_errors bp.spec.resources.gpu)
            (device_errors bp.spec.devices) r1 in
        let (hd, g) = append-nil_iff (header_errors bp) (gpu_errors bp.spec.resources.gpu) r2 in
        let (version, kind, name, base, run, stub) = header_ok bp hd in
        record {
          version = version;
          kind = kind;
          named = ne_of_test _ _ name;
          based = ne_of_test _ _ base;
          runs_on = ne_of_test _ _ run;
          not_stub = ne_of_test _ _ stub;
          gpus = (gpu_ok bp.spec.resources.gpu).0 g;
          devices = devices_ok bp.spec.devices d;
          probe = probe_ok bp.spec.readiness_probe p;
        }

    back : IsWellFormed bp → validate bp ≡ []
    back v = rw (
      header_no_error bp v,
      (gpu_ok bp.spec.resources.gpu).1 v.gpus,
      devices_no_error bp.spec.devices v.devices,
      probe_no_error bp.spec.readiness_probe v.probe,
    )
