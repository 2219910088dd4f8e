-- ===== src/Controller/Create/Frame.antt =====
-- Create and the other sandboxes.
use sandboxmatrix.Base.{
  String, ◌≡◌, refl, ◌∙◌, ap, inl, inr, false, Option, none, some, List, [], ◌∷◌, arith, str_eq,
  Bool-cases, Option-cases,
}
use sandboxmatrix.Base.Action.{◌>>◌, Error, Result, ok, err, Result-cases}
use sandboxmatrix.Api.{Blueprint, Sandbox, SetupStep, ProbeConfig}
use sandboxmatrix.State.{StoreLaws}
use sandboxmatrix.Runtime.{CreateConfig}
use sandboxmatrix.Blueprint.{validate_file}
use sandboxmatrix.Controller.{System, Controller, save, wrapping}
use sandboxmatrix.Controller.Lifecycle.{name_of}
use sandboxmatrix.Controller.Create.{CreateOptions, Host, new_sandbox, failed}
use sandboxmatrix.Controller.Create.Run.{
  create_from, check_quota, workspace_refused, create_config, sh_command, step_error, probe_failed,
  give_up, start_and_track, run_setup, run_probe, steps_of, after_create, deploy, create_with,
  create,
}
use sandboxmatrix.Controller.Create.Reaches.{sandboxes-check_quota}
use sandboxmatrix.Controller.Create.Succeeds.{start_and_track_ok, run_probe_ok}

module _ {S M N W : Type 0} (c : Controller S M N W) where
  -- The store shows the same under the name.
  abbrev pub Keeps : String → System S M N W → System S M N W → Type 0
  Keeps k σ σ' = c.store.get k σ'.sandboxes ≡ c.store.get k σ.sandboxes

module _ {S M N W B : Type 0} (c : Controller S M N W) (h : Host W B)
    (laws : StoreLaws c.store name_of) (k : String) where
  pub Keeps-save :
      (sb : Sandbox) (σ : System S M N W)
      → str_eq (name_of sb) k ≡ false
      → Keeps c k σ (save c sb σ).1
  Keeps-save sb σ ne = elim (Result-cases (c.store.save sb σ.sandboxes).0) [
    | inr (e, f) ↦ laws.save_fails sb σ.sandboxes k e f
    | inl (u, f) ↦ ground (arith, laws.get-save sb σ.sandboxes k f)
  ]

  pub Keeps-start_and_track :
      (id : String) (sb : Sandbox) (σ : System S M N W)
      → str_eq (name_of sb) k ≡ false
      → Keeps c k σ (start_and_track c h id sb σ).1
  unfolding start_and_track give_up
  Keeps-start_and_track id sb σ ne = elim (Result-cases (c.runtime.start id σ.world).0) [
    | inl (u, e) ↦ rw (start_and_track, e) refl
    | inr (x, e) ↦ rw (start_and_track, give_up, e) (Keeps-save (failed sb (h.text_of x)) σ ne)
  ]

  Keeps-run_setup :
      (id : String) (sb : Sandbox) (steps : List SetupStep) (σ : System S M N W)
      → str_eq (name_of sb) k ≡ false
      → Keeps c k σ (run_setup c h id sb steps σ).1
  unfolding run_setup give_up
  Keeps-run_setup id sb [] σ ne = refl
  Keeps-run_setup id sb (step ∷ steps) σ ne =
      let r = c.runtime.exec id (sh_command c h step) σ.world in
      elim (Option-cases (step_error c h step r.0)) [
        | inl e ↦ rw (run_setup, e) (Keeps-run_setup id sb steps (record σ { world = r.1 }) ne)
        | inr (x, e) ↦ rw (run_setup, give_up, e) (Keeps-save (failed sb (h.text_of x)) σ ne)
      ]

  Keeps-run_probe :
      (id : String) (sb : Sandbox) (p : Option ProbeConfig) (σ : System S M N W)
      → str_eq (name_of sb) k ≡ false
      → Keeps c k σ (run_probe c h id sb p σ).1
  unfolding run_probe give_up
  Keeps-run_probe id sb none σ ne = refl
  Keeps-run_probe id sb (some p) σ ne =
      let σ1 = (save c sb σ).1 in
      elim (Result-cases (h.wait_for_ready id sb.status.ip p σ1.world).0) [
        | inl (u, e) ↦ rw (run_probe, e) (Keeps-save sb σ ne)
        | inr (x, e) ↦
            rw (run_probe, give_up, e)
              (Keeps-save (probe_failed c h sb x) σ1 ne ∙ Keeps-save sb σ ne)
      ]

  other_name :
      (sb sb1 : Sandbox)
      → name_of sb1 ≡ name_of sb
      → str_eq (name_of sb) k ≡ false
      → str_eq (name_of sb1) k ≡ false
  other_name sb sb1 e ne = ap (λ n. str_eq n k) e ∙ ne

  Keeps-after_create :
      (bp : Blueprint) (cached : Option String) (sb : Sandbox) (id : String) (σ : System S M N W)
      → str_eq (name_of sb) k ≡ false
      → Keeps c k σ (after_create c h bp cached sb id σ).1
  Keeps-after_create bp cached sb id σ ne =
      let a = start_and_track c h id sb σ in
      let first = Keeps-start_and_track id sb σ ne in
      elim (Result-cases a.0) [
        | inr (x, e) ↦ rw e first
        | inl (sb1, e) ↦
            let (n1, r1) = start_and_track_ok c h id sb sb1 σ e in
            let ne1 = other_name sb sb1 n1 ne in
            let steps = steps_of c h cached bp.spec.setup in
            let b = run_setup c h id sb1 steps a.1 in
            let second = Keeps-run_setup id sb1 steps a.1 ne1 ∙ first in
            elim (Result-cases b.0) [
              | inr (x, f) ↦ rw (e, f) second
              | inl (u, f) ↦
                  let d = run_probe c h id sb1 bp.spec.readiness_probe b.1 in
                  let third = Keeps-run_probe id sb1 bp.spec.readiness_probe b.1 ne1 ∙ second in
                  elim (Result-cases d.0) [
                    | inr (x, g) ↦ rw (e, f, g) third
                    | inl (sb2, g) ↦
                        let (n2, r2) =
                          run_probe_ok c h id sb1 sb2 bp.spec.readiness_probe b.1 r1 g in
                        let fourth = Keeps-save sb2 d.1 (other_name sb1 sb2 n2 ne1) ∙ third in
                        elim (Result-cases (c.store.save sb2 d.1.sandboxes).0) [
                          | inl (v, l) ↦ rw (e, f, g, l) fourth
                          | inr (x, l) ↦ rw (e, f, g, l) fourth
                        ]
                  ]
            ]
      ]

  Keeps-deploy :
      (cfg : CreateConfig) (bp : Blueprint) (cached : Option String) (sb : Sandbox)
      (σ : System S M N W)
      → str_eq (name_of sb) k ≡ false
      → Keeps c k σ (deploy c h cfg bp cached sb σ).1
  unfolding deploy give_up
  Keeps-deploy cfg bp cached sb σ ne =
      let w = (c.runtime.create cfg σ.world).1 in
      elim (Result-cases (c.runtime.create cfg σ.world).0) [
        | inl (id, e) ↦
            rw (deploy, e) (Keeps-after_create bp cached sb id (record σ { world = w }) ne)
        | inr (x, e) ↦ rw (deploy, give_up, e) (Keeps-save (failed sb (h.text_of x)) σ ne)
      ]

  Keeps-save_new :
      (cfg : CreateConfig) (bp : Blueprint) (cached : Option String) (sb : Sandbox)
      (σ : System S M N W)
      → str_eq (name_of sb) k ≡ false
      → Keeps c k σ ((wrapping "save state" (save c sb) >> deploy c h cfg bp cached sb) σ).1
  Keeps-save_new cfg bp cached sb σ ne = elim (Result-cases (c.store.save sb σ.sandboxes).0) [
    | inr (x, e) ↦ rw e (Keeps-save sb σ ne)
    | inl (u, e) ↦ rw e (Keeps-deploy cfg bp cached sb (save c sb σ).1 ne ∙ Keeps-save sb σ ne)
  ]

  Keeps-create_with :
      (o : CreateOptions) (bp : Blueprint) (σ : System S M N W)
      → str_eq o.name k ≡ false
      → Keeps c k σ (create_with c h o bp σ).1
  unfolding create_with
  Keeps-create_with o bp σ ne =
      let q = check_quota c h o.team bp σ in
      let same : Keeps c k σ q.1 =
        ap (c.store.get k) (sandboxes-check_quota c h laws o.team bp σ) in
      elim (Result-cases q.0) [
        | inr (x, e) ↦ rw (e, create_with) same
        | inl (u, e) ↦ elim (Bool-cases (workspace_refused c h o.workspace_dir)) [
          | inl bad ↦ rw (e, bad, create_with) same
          | inr good ↦
              let new = new_sandbox o bp (c.clock q.1.world) in
              let cached = h.cached_image q.1.world bp in
              rw (e, good, create_with)
                (Keeps-save_new (create_config c h o bp q.1) bp cached new q.1 ne ∙ same)
        ]
      ]

  Keeps-create_from :
      (o : CreateOptions) (r : Result Blueprint × List Error) (σ : System S M N W)
      → str_eq o.name k ≡ false
      → Keeps c k σ (create_from c h o r σ).1
  Keeps-create_from o (r, e ∷ es) σ ne = refl
  Keeps-create_from o (err e, []) σ ne = refl
  Keeps-create_from o (ok bp, []) σ ne = Keeps-create_with o bp σ ne

  -- Create leaves every sandbox of another name as it was.
  pub Keeps-create :
      (o : CreateOptions) (σ : System S M N W)
      → str_eq o.name k ≡ false
      → Keeps c k σ (create c h o σ).1
  unfolding create
  Keeps-create o σ ne = elim (Result-cases (c.store.get o.name σ.sandboxes)) [
    | inl (sb, e) ↦ rw (e, create) refl
    | inr (x, e) ↦
        rw (e, create) (Keeps-create_from o (validate_file h.files o.blueprint_path) σ ne)
  ]
