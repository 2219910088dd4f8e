-- ===== src/Blueprint/Chain.antt =====
-- A chain of blueprints merged as resolveExtends merges it, field by field.
use sandboxmatrix.Base.{
  String, ◌≡◌, ◌∙◌, refl, ap, not, ◌||◌, Bool, Option, none, some, List, [], ◌∷◌, ◌++◌, map, str_eq,
  if◌then◌else◌, Bool-cases, inl, inr, arith, eq_iff,
}
use sandboxmatrix.Base.Dict.{lookup}
use sandboxmatrix.Api.{Blueprint, WorkspaceSpec, NetworkSpec}
use sandboxmatrix.Blueprint.Merge.{
  set_over, or_parent, merge_resources, merge_workspace, merge_network, merge_spec,
  merge_blueprints, is_empty,
}
use sandboxmatrix.Blueprint.Inherit.{IsMap, lookup-assign_all}

-- The blueprint of a file whose parents are those listed, the nearest first.
abbrev pub resolved : Blueprint → List Blueprint → Blueprint
resolved b [] = b
resolved b (p ∷ ps) = merge_blueprints (resolved p ps) b

-- The first text that is set.
abbrev pub first_set : List String → String
first_set [] = ""
first_set (x ∷ xs) = if str_eq x "" then first_set xs else x

-- The first value that is given.
abbrev pub first_given : {A : Type 0} → List (Option A) → Option A
first_given [] = none
first_given (none ∷ xs) = first_given xs
first_given (some a ∷ xs) = some a

-- The value of the nearest blueprint that sets it, and the farthest one's if none does.
abbrev pub nearest : {A : Type 0} → (A → Bool) → A → List A → A
nearest sets a [] = a
nearest sets a (b ∷ bs) = if sets a then a else nearest sets b bs

-- The lists of all the chain, the farthest first.
abbrev pub joined : {A : Type 0} → List A → List (List A) → List A
joined xs [] = xs
joined xs (ys ∷ yss) = joined ys yss ++ xs

abbrev pub sets_workspace : WorkspaceSpec → Bool
sets_workspace w = not (str_eq w.mount_path "")

abbrev pub sets_network : NetworkSpec → Bool
sets_network n = not (str_eq n.policy "") || not (is_empty n.expose)

abbrev pub AreMaps : List Blueprint → Type 0
AreMaps [] = Unit
AreMaps (b ∷ bs) = IsMap b.spec.env × AreMaps bs

-- What a resolved blueprint holds, in terms of the chain that it came from.
pub record Inherits (b : Blueprint) (ps : List Blueprint) (r : Blueprint) : Type 0 where
  pub metadata : r.metadata ≡ b.metadata
  pub base : r.spec.base ≡ first_set (map (λ x. x.spec.base) (b ∷ ps))
  pub runtime : r.spec.runtime ≡ first_set (map (λ x. x.spec.runtime) (b ∷ ps))
  pub cpu : r.spec.resources.cpu ≡ first_set (map (λ x. x.spec.resources.cpu) (b ∷ ps))
  pub memory : r.spec.resources.memory ≡ first_set (map (λ x. x.spec.resources.memory) (b ∷ ps))
  pub disk : r.spec.resources.disk ≡ first_set (map (λ x. x.spec.resources.disk) (b ∷ ps))
  pub gpu : r.spec.resources.gpu ≡ first_given (map (λ x. x.spec.resources.gpu) (b ∷ ps))
  pub probe : r.spec.readiness_probe ≡ first_given (map (λ x. x.spec.readiness_probe) (b ∷ ps))
  pub workspace :
      r.spec.workspace ≡ nearest sets_workspace b.spec.workspace (map (λ x. x.spec.workspace) ps)
  pub network : r.spec.network ≡ nearest sets_network b.spec.network (map (λ x. x.spec.network) ps)
  pub secrets : r.spec.secrets ≡ joined b.spec.secrets (map (λ x. x.spec.secrets) ps)
  pub setup : r.spec.setup ≡ joined b.spec.setup (map (λ x. x.spec.setup) ps)
  pub toolchains : r.spec.toolchains ≡ joined b.spec.toolchains (map (λ x. x.spec.toolchains) ps)
  pub devices : r.spec.devices ≡ joined b.spec.devices (map (λ x. x.spec.devices) ps)
  pub env :
      (k : String) → lookup k r.spec.env ≡ first_given (map (λ x. lookup k x.spec.env) (b ∷ ps))

or_parent-first :
    {A : Type 0} (x y : Option A) (ys : List (Option A))
    → y ≡ first_given ys
    → or_parent y x ≡ first_given (x ∷ ys)
or_parent-first none y ys h = h
or_parent-first (some a) y ys h = refl

first_set_one : (x : String) → x ≡ first_set (x ∷ [])
first_set_one x = ground (arith, eq_iff x "")

first_given_one : {A : Type 0} (x : Option A) → x ≡ first_given (x ∷ [])
first_given_one none = refl
first_given_one (some a) = refl

over :
    (f : Blueprint → String) (b : Blueprint) (ps : List Blueprint) (y : String)
    → y ≡ first_set (map f ps)
    → set_over y (f b) ≡ first_set (map f (b ∷ ps))
over f b ps y h = ap (λ z. if str_eq (f b) "" then z else f b) h

workspace_over :
    (x y z : WorkspaceSpec) → y ≡ z → merge_workspace y x ≡ (if sets_workspace x then x else z)
unfolding merge_workspace
workspace_over x y z h = elim (Bool-cases (str_eq x.mount_path "")) [
  | inl e ↦ rw e h
  | inr e ↦ rw e refl
]

network_over : (x y z : NetworkSpec) → y ≡ z → merge_network y x ≡ (if sets_network x then x else z)
unfolding merge_network
network_over x y z h = ap (λ u. if sets_network x then x else u) h

-- A blueprint merged with a chain of parents of any length has its own metadata; each text, GPU and
-- probe of the nearest blueprint that sets it; the workspace of the nearest with a mount path and
-- the network of the nearest with a policy or exposed ports, or the farthest's; the secrets, setup
-- steps, toolchains and devices of all, the farthest's first; and at each key of the environment
-- the nearest value, for environments that are maps.
pub resolved-Inherits :
    (b : Blueprint) (ps : List Blueprint) → AreMaps (b ∷ ps) → Inherits b ps (resolved b ps)
unfolding merge_blueprints merge_spec merge_resources
resolved-Inherits b [] m = record {
  metadata = refl;
  base = first_set_one b.spec.base;
  runtime = first_set_one b.spec.runtime;
  cpu = first_set_one b.spec.resources.cpu;
  memory = first_set_one b.spec.resources.memory;
  disk = first_set_one b.spec.resources.disk;
  gpu = first_given_one b.spec.resources.gpu;
  probe = first_given_one b.spec.readiness_probe;
  workspace = refl;
  network = refl;
  secrets = refl;
  setup = refl;
  toolchains = refl;
  devices = refl;
  env = λ k. first_given_one (lookup k b.spec.env);
}
resolved-Inherits b (p ∷ ps) (m, ms) =
    let h = resolved-Inherits p ps ms in
    let r = resolved p ps in
    record {
      metadata = refl;
      base = over (λ x. x.spec.base) b (p ∷ ps) r.spec.base h.base;
      runtime = over (λ x. x.spec.runtime) b (p ∷ ps) r.spec.runtime h.runtime;
      cpu = over (λ x. x.spec.resources.cpu) b (p ∷ ps) r.spec.resources.cpu h.cpu;
      memory = over (λ x. x.spec.resources.memory) b (p ∷ ps) r.spec.resources.memory h.memory;
      disk = over (λ x. x.spec.resources.disk) b (p ∷ ps) r.spec.resources.disk h.disk;
      gpu = or_parent-first b.spec.resources.gpu r.spec.resources.gpu _ h.gpu;
      probe = or_parent-first b.spec.readiness_probe r.spec.readiness_probe _ h.probe;
      workspace = workspace_over b.spec.workspace r.spec.workspace _ h.workspace;
      network = network_over b.spec.network r.spec.network _ h.network;
      secrets = ap (λ xs. xs ++ b.spec.secrets) h.secrets;
      setup = ap (λ xs. xs ++ b.spec.setup) h.setup;
      toolchains = ap (λ xs. xs ++ b.spec.toolchains) h.toolchains;
      devices = ap (λ xs. xs ++ b.spec.devices) h.devices;
      env = λ k.
          lookup-assign_all b.spec.env r.spec.env k m
          ∙ or_parent-first (lookup k b.spec.env) (lookup k r.spec.env) _ (h.env k);
    }
