-- ===== src/Autoscale/Keeping.antt =====
-- Loops over the tracked sandboxes whose body keeps a property of them and one of the world.
use mathlib.Core.Path.{subst}
use sandboxmatrix.Base.{◌≡◌, Option, some, [], ◌∷◌, inl, inr, arith, Option-cases}
use sandboxmatrix.Base.Dict.{Dict}
use sandboxmatrix.Autoscale.{SandboxState, each}
use sandboxmatrix.Autoscale.Changes.{All}

module _ {W : Type 0} (P : SandboxState → Type 0) (Q : W → Type 0)
    (f : SandboxState → W → Option (SandboxState × W)) where
  -- A body that keeps a property of the sandboxes and one of the world.
  abbrev pub Keeps : Type 0
  Keeps = (s s' : SandboxState) (w w' : W) → P s → Q w → f s w ≡ some (s', w') → P s' × Q w'

  pub each_keeps :
      Keeps
      → (d d' : Dict SandboxState) (w w' : W) → All P d
      → Q w
      → each f d w ≡ some (d', w')
      → All P d' × Q w'
  each_keeps keeps [] d' w w' h q e =
      let a : ◌≡◌ {A = Dict SandboxState} [] d' = cc in
      let b : w ≡ w' = cc in (subst (All P) a tt, subst Q b q)
  each_keeps keeps ((k, s) ∷ d) d' w w' (h, hs) q e = elim (Option-cases (f s w)) [
    | inl panics ↦ absurd (ground arith)
    | inr ((s', v), x) ↦ elim (Option-cases (each f d v)) [
      | inl panics ↦ absurd (ground arith)
      | inr ((rest, u), y) ↦
          let (h', q') = keeps s s' w v h q x in
          let (hs', q'') = each_keeps keeps d rest v u hs q' y in
          let a : ◌≡◌ {A = Dict SandboxState} ((k, s') ∷ rest) d' = ground arith in
          let b : u ≡ w' = ground arith in (subst (All P) a (h', hs'), subst Q b q'')
    ]
  ]

pub both :
    {W A : Type 0} (P : A → Type 0) (Q : W → Type 0) (s s' : A) (w w' : W)
    → P s
    → Q w
    → ◌≡◌ {A = Option (A × W)} (some (s, w)) (some (s', w'))
    → P s' × Q w'
both P Q s s' w w' p q e = let a : s ≡ s' = cc in let b : w ≡ w' = cc in (subst P a p, subst Q b q)
