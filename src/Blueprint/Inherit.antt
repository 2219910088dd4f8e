-- ===== src/Blueprint/Inherit.antt =====
-- Inheritance: merged environments, chains of parents, and circular references.
use sandboxmatrix.Base.{
  ℕ, zero, suc, String, ◌≡◌, ◌≢◌, refl, not, ◌||◌, true, Option, none, some, [], ◌∷◌, arith, str_eq,
  eq_iff, Bool-cases, inl, inr,
}
use mathlib.Core.List.{append_assoc}
use sandboxmatrix.Base.Dict.{Dict, lookup, insert, lookup-insert}
use sandboxmatrix.Base.Action.{Error, message, wrap, ok, err, Result-cases}
use sandboxmatrix.Api.{Blueprint, Resources, WorkspaceSpec, NetworkSpec}
use sandboxmatrix.Blueprint.Merge.{
  set_over, or_parent, assign_all, merge_resources, merge_workspace, merge_network, merge_spec,
  merge_blueprints, is_empty,
}
use sandboxmatrix.Blueprint.File.{Files, parse_levels, parent_path, read_blueprint}

-- A Go map has each key once.
abbrev pub IsMap : Dict String → Type 0
IsMap [] = Unit {0}
IsMap ((k, v) ∷ d) = (lookup k d ≡ none) × IsMap d

lookup_absent :
    (k j : String) (d : Dict String) → lookup k d ≡ none → str_eq k j ≡ true → lookup j d ≡ none
lookup_absent k j d h e = ground (arith, eq_iff k j)

-- The merged environment has the child's value at every key that the child sets, and the parent's
-- at every other, for a child whose environment is a map.
pub lookup-assign_all :
    (child parent : Dict String) (k : String)
    → IsMap child
    → lookup k (assign_all child parent) ≡ or_parent (lookup k parent) (lookup k child)
unfolding assign_all lookup
lookup-assign_all [] parent k m = refl
lookup-assign_all ((j, v) ∷ e) parent k m = ground (
  arith,
  lookup-assign_all e (insert j v parent) k m.1,
  lookup-insert j k v parent,
  lookup_absent j k e m.0,
)

set_over_assoc : (a b d : String) → set_over (set_over a b) d ≡ set_over a (set_over b d)
set_over_assoc a b d = elim (Bool-cases (str_eq d "")) [ inl e ↦ rw e | inr n ↦ rw (n, n) ]

or_parent_assoc {ℓ} :
    {A : Type ℓ} (a b d : Option A) → or_parent (or_parent a b) d ≡ or_parent a (or_parent b d)
or_parent_assoc a b none = refl
or_parent_assoc a b (some x) = refl

resources_assoc :
    (a b d : Resources)
    → merge_resources (merge_resources a b) d ≡ merge_resources a (merge_resources b d)
unfolding merge_resources
resources_assoc a b d = simp (set_over_assoc, or_parent_assoc)

workspace_assoc :
    (a b d : WorkspaceSpec)
    → merge_workspace (merge_workspace a b) d ≡ merge_workspace a (merge_workspace b d)
unfolding merge_workspace
workspace_assoc a b d = elim (Bool-cases (str_eq d.mount_path "")) [
  | inl e ↦ rw e
  | inr n ↦ rw (n, n)
]

network_assoc :
    (a b d : NetworkSpec)
    → merge_network (merge_network a b) d ≡ merge_network a (merge_network b d)
unfolding merge_network
network_assoc a b d = elim (Bool-cases (not (str_eq d.policy "") || not (is_empty d.expose))) [
  | inl e ↦ rw (e, e)
  | inr n ↦ rw n
]

IsMap-insert : (k v : String) (d : Dict String) → IsMap d → IsMap (insert k v d)
unfolding insert lookup
IsMap-insert k v [] m = (refl, tt)
IsMap-insert k v ((j, w) ∷ d) m = elim (Bool-cases (str_eq j k)) [
  | inl e ↦ rw e (ground (arith, eq_iff j k), m.1)
  | inr n ↦
      rw n
        (ground (arith, lookup-insert k j v d, eq_iff j k, eq_iff k j, m.0), IsMap-insert k v d m.1)
]

IsMap-assign_all : (e d : Dict String) → IsMap d → IsMap (assign_all e d)
unfolding assign_all
IsMap-assign_all [] d m = m
IsMap-assign_all ((k, v) ∷ e) d m = IsMap-assign_all e (insert k v d) (IsMap-insert k v d m)

abbrev pub without_env : Blueprint → Blueprint
without_env b = record b { spec = record b.spec { env = [] } }

-- A chain of two parents may be merged from either end, with results that agree in every field; the
-- environments, for blueprints whose environments are maps, hold the same value at every key.
pub merge_assoc :
    (g p b : Blueprint)
    → IsMap p.spec.env
    → IsMap b.spec.env
    → let left = merge_blueprints (merge_blueprints g p) b in
      let right = merge_blueprints g (merge_blueprints p b) in
      (without_env left ≡ without_env right)
      × ((k : String) → lookup k left.spec.env ≡ lookup k right.spec.env)
unfolding merge_blueprints merge_spec
merge_assoc g p b mp mb = (
  simp (
    set_over_assoc, resources_assoc, or_parent_assoc, workspace_assoc, network_assoc, append_assoc,
  ),
  λ k. simp (
    lookup-assign_all _ _ k mb,
    lookup-assign_all _ _ k mp,
    lookup-assign_all _ _ k (IsMap-assign_all b.spec.env p.spec.env mp),
    or_parent_assoc,
  ),
)

-- A file that is read without error has no parent left to resolve.
pub parse_levels_resolves :
    {B : Type 0} (f : Files B) (left : ℕ) (path : String) (bp : Blueprint)
    → parse_levels f left path ≡ ok bp
    → bp.spec.extends ≡ ""
unfolding parse_levels merge_blueprints merge_spec
parse_levels_resolves f zero path bp h = elim (Result-cases (read_blueprint f path)) [
  | inl (own, e) ↦ ground (arith, eq_iff own.spec.extends "")
  | inr (x, e) ↦ absurd (ground arith)
]
parse_levels_resolves f (suc left) path bp h = elim (Result-cases (read_blueprint f path)) [
  | inl (own, e) ↦ ground (arith, eq_iff own.spec.extends "")
  | inr (x, e) ↦ absurd (ground arith)
]

-- If the files of a family all name a parent that is again in the family, as in a circular
-- reference, then reading one of them ends in an error, whatever the limit on the depth is.
pub parse_levels_cycle :
    {B : Type 0} (f : Files B) (P : String → Type 0)
    → ((path : String) (bp : Blueprint)
        → P path
        → read_blueprint f path ≡ ok bp
        → (bp.spec.extends ≢ "") × P (parent_path f bp.spec.extends path))
    → (left : ℕ) (path : String) → P path
    → (e : Error) × (parse_levels f left path ≡ err e)
unfolding parse_levels
parse_levels_cycle f P closed zero path p = elim (Result-cases (read_blueprint f path)) [
  | inl (own, e) ↦
      let (n, q) = closed path own p e in
      (message "extends depth exceeds maximum", ground (arith, eq_iff own.spec.extends "", n))
  | inr (x, e) ↦ (x, ground arith)
]
parse_levels_cycle f P closed (suc left) path p = elim (Result-cases (read_blueprint f path)) [
  | inl (own, e) ↦
      let (n, q) = closed path own p e in
      let (x, g) = parse_levels_cycle f P closed left (parent_path f own.spec.extends path) q in
      (wrap "resolve extends" x, ground (arith, eq_iff own.spec.extends "", n))
  | inr (x, e) ↦ (x, ground arith)
]
