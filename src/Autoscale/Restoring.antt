-- ===== src/Autoscale/Restoring.antt =====
-- What ends a pause, and what does not.
use mathlib.Core.Path.{subst}
use sandboxmatrix.Base.{
  ℕ, String, ◌≡◌, ◌≢◌, refl, sym, ap, ◌∙◌, true, false, ◌&&◌, not, Option, some, [], ◌∷◌, str_eq,
  inl, inr, arith, Bool-cases, Option-cases,
}
use sandboxmatrix.Base.Int.{ℤ}
use sandboxmatrix.Base.Dict.{Dict, lookup, lookup-insert_self}
use sandboxmatrix.Autoscale.{
  Floats, Scaling, Config, PressureLevel, pressure_none, pressure_normal, pressure_high,
  pressure_critical, is_low, SandboxState, Autoscaler, each, set_priority,
}
use sandboxmatrix.Autoscale.Loop.{
  shrink, shrink_by_priority, pause_if_low, pause_low_priority, adjust,
}

module _ {W : Type 0} (f : SandboxState → W → Option (SandboxState × W)) where
  each-lookup :
      (k : String) (s : SandboxState)
      → ((w : W) → (w' : W) × (f s w ≡ some (s, w')))
      → (d d' : Dict SandboxState) (w w' : W) → lookup k d ≡ some s
      → each f d w ≡ some (d', w')
      → lookup k d' ≡ some s
  unfolding lookup
  each-lookup k s keeps [] d' w w' h e = absurd (ground arith)
  each-lookup k s keeps ((j, r) ∷ d) d' w w' h e = elim (Option-cases (f r w)) [
    | inl panics ↦ absurd (ground arith)
    | inr ((r', v), p) ↦ elim (Option-cases (each f d v)) [
      | inl panics ↦ absurd (ground arith)
      | inr ((rest, u), q) ↦
          let out : ◌≡◌ {A = Dict SandboxState} ((j, r') ∷ rest) d' = ground arith in
          elim (Bool-cases (str_eq j k)) [
            | inl here ↦
                let (x, y) = keeps w in
                let is_s : r ≡ s = ground arith in
                let both : ◌≡◌ {A = Option (SandboxState × W)} (some (r', v)) (some (s, x)) =
                  sym p ∙ ap (λ z. f z w) is_s ∙ y in
                let kept : r' ≡ s = cc in
                subst (λ (l : Dict SandboxState). lookup k l ≡ some s) out
                  (rw (lookup, here) (ap some kept))
            | inr later ↦
                subst (λ (l : Dict SandboxState). lookup k l ≡ some s) out
                  (rw (lookup, later) (each-lookup k s keeps d rest v u (ground arith) q))
          ]
    ]
  ]

module _ {F W : Type 0} (num : Floats F) (rt : Scaling F W) (cfg : Config F) where
  shrink_paused :
      (t : ℕ) (s : SandboxState)
      → s.paused ≡ true
      → (w : W) → (w' : W) × (shrink num rt cfg t s w ≡ some (s, w'))
  unfolding shrink
  shrink_paused t s h w = (w, rw (shrink, h) refl)

  pause_paused :
      (s : SandboxState)
      → s.paused ≡ true
      → (w : W) → (w' : W) × (pause_if_low num rt cfg s w ≡ some (s, w'))
  unfolding pause_if_low
  pause_paused s h w =
      let e : is_low s.priority && not s.paused ≡ false = ground arith in
      (w, rw (pause_if_low, e) refl)

  adjust_paused :
      (p : PressureLevel) (k : String) (s : SandboxState) (d d' : Dict SandboxState) (w w' : W)
      → p ≢ pressure_none
      → s.paused ≡ true
      → lookup k d ≡ some s
      → adjust num rt cfg p d w ≡ some (d', w')
      → lookup k d' ≡ some s
  unfolding adjust shrink_by_priority pause_low_priority
  adjust_paused pressure_none k s d d' w w' n h l e = absurd (n refl)
  adjust_paused pressure_normal k s d d' w w' n h l e =
      let same : d ≡ d' = ground arith in
      subst (λ (x : Dict SandboxState). lookup k x ≡ some s) same l
  adjust_paused pressure_high k s d d' w w' n h l e =
      each-lookup (shrink num rt cfg 4) k s (shrink_paused 4 s h) d d' w w' l e
  adjust_paused pressure_critical k s d d' w w' n h l e =
      elim (Option-cases (pause_low_priority num rt cfg d w)) [
        | inl panics ↦ absurd (ground arith)
        | inr ((d1, w1), f) ↦
            let first =
              each-lookup (pause_if_low num rt cfg) k s (pause_paused s h) d d1 w w1 l f in
            each-lookup (shrink num rt cfg 2) k s (shrink_paused 2 s h) d1 d' w1 w' first
              (sym (rw (adjust, f) refl) ∙ e)
      ]

  -- A paused sandbox that SetPriority raises stays paused, at any priority, through every
  -- adjustment until the pressure is the lowest.
  pub raised_stays_paused :
      (p : PressureLevel) (priority : ℤ) (name : String) (s : SandboxState) (a : Autoscaler)
      (d : Dict SandboxState) (w w' : W)
      → p ≢ pressure_none
      → s.paused ≡ true
      → lookup name a.sandboxes ≡ some s
      → adjust num rt cfg p (set_priority name priority a).sandboxes w ≡ some (d, w')
      → lookup name d ≡ some (record s { priority = priority })
  unfolding set_priority
  raised_stays_paused p priority name s a d w w' n h l e =
      let raised : lookup name (set_priority name priority a).sandboxes
          ≡ some (record s { priority = priority }) =
        rw (set_priority, l)
          (lookup-insert_self name (record s { priority = priority }) a.sandboxes) in
      adjust_paused p name (record s { priority = priority })
        (set_priority name priority a).sandboxes d w w' n h raised e
