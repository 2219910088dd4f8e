-- ===== src/Autoscale/Changes.antt =====
-- What the loop may do to a tracked sandbox.
use mathlib.Core.Path.{subst}
use sandboxmatrix.Base.{
  ℕ, zero, suc, ◌≤◌, ◌≡◌, refl, sym, ◌∙◌, ◌⊎◌, true, false, not, ◌&&◌, Option, some, [], ◌∷◌, ltb,
  ◌==◌, inl, inr, arith, Bool-cases, Option-cases,
}
use sandboxmatrix.Base.Int.{ℤ, pos, negsuc}
use sandboxmatrix.Base.Dict.{Dict}
use sandboxmatrix.Base.Action.{is_ok}
use sandboxmatrix.Autoscale.{
  Floats, Scaling, Config, PressureLevel, pressure_none, pressure_normal, pressure_high,
  pressure_critical, full, is_low, SandboxState, target_for, each,
}
use sandboxmatrix.Autoscale.Host.{parse_memory_bytes}
use sandboxmatrix.Autoscale.Loop.{
  scale_sandbox, expand_scale, expand, expand_all, shrink, shrink_by_priority, update_for,
  pause_if_low, pause_low_priority, adjust,
}

abbrev pub All : (SandboxState → Type 0) → Dict SandboxState → Type 0
All P [] = Unit
All P ((k, s) ∷ d) = P s × All P d

module _ {W : Type 0} (P : SandboxState → Type 0)
    (f : SandboxState → W → Option (SandboxState × W)) where
  -- A loop whose body keeps a property keeps it everywhere.
  pub each-All :
      ((s s' : SandboxState) (w w' : W) → P s → f s w ≡ some (s', w') → P s')
      → (d d' : Dict SandboxState) (w w' : W) → All P d
      → each f d w ≡ some (d', w')
      → All P d'
  each-All keeps [] d' w w' h e =
      let p : ◌≡◌ {A = Dict SandboxState} [] d' = cc in subst (All P) p tt
  each-All keeps ((k, s) ∷ d) d' w w' (h, hs) e = elim (Option-cases (f s w)) [
    | inl no_state ↦ absurd (ground arith)
    | inr ((s', v), p) ↦ elim (Option-cases (each f d v)) [
      | inl no_rest ↦ absurd (ground arith)
      | inr ((rest, u), q) ↦
          let r : ◌≡◌ {A = Dict SandboxState} ((k, s') ∷ rest) d' = ground arith in
          subst (All P) r (keeps s s' w v h p, each-All keeps d rest v u hs q)
    ]
  ]

pub returned :
    {W : Type 0} (P : SandboxState → Type 0) (s s' : SandboxState) (w w' : W)
    → P s
    → ◌≡◌ {A = Option (SandboxState × W)} (some (s, w)) (some (s', w'))
    → P s'
returned P s s' w w' h e = let same : s ≡ s' = cc in subst P same h

-- The least scale that a priority allows to an unpaused sandbox that is not low.
abbrev pub floor : ℤ → ℕ
floor (pos zero) = 0
floor (pos (suc zero)) = 2
floor (pos (suc (suc zero))) = 4
floor (pos (suc (suc (suc zero)))) = 6
floor (pos (suc (suc (suc (suc p))))) = 2
floor (negsuc p) = 0

-- Only a low sandbox is paused, at scale 0; any other keeps the least scale of its priority.
pub record IsGuarded (s : SandboxState) : Type 0 where
  pub paused_at_0 : s.paused ≡ true → s.current_scale ≡ 0
  pub paused_low : s.paused ≡ true → is_low s.priority ≡ true
  pub at_floor : floor s.priority ≤ s.current_scale

pub floor-full : (p : ℤ) → floor p ≤ full
floor-full (pos zero) = omega arith
floor-full (pos (suc zero)) = omega arith
floor-full (pos (suc (suc zero))) = omega arith
floor-full (pos (suc (suc (suc zero)))) = omega arith
floor-full (pos (suc (suc (suc (suc p))))) = omega arith
floor-full (negsuc p) = omega arith

pub floor-target : (p : ℤ) (t : ℕ) → 2 ≤ t → floor p ≤ target_for p t
unfolding target_for
floor-target (pos zero) t h = omega arith
floor-target (pos (suc zero)) t h = h
floor-target (pos (suc (suc zero))) t h = ground arith
floor-target (pos (suc (suc (suc zero)))) t h = ground arith
floor-target (pos (suc (suc (suc (suc p))))) t h = h
floor-target (negsuc p) t h = omega arith

floor-low : (p : ℤ) → is_low p ≡ true → floor p ≡ 0
floor-low (pos zero) h = refl
floor-low (pos (suc p)) h = absurd (ground arith)
floor-low (negsuc p) h = refl

module _ {F W : Type 0} (num : Floats F) (rt : Scaling F W) (cfg : Config F) where
  -- A change of scale takes effect as a whole or not at all.
  pub scale-cases :
      (scale : ℕ) (s s' : SandboxState) (w w' : W)
      → scale_sandbox num rt cfg scale s w ≡ some (s', w')
      → (s ≡ s') ⊎ (◌≡◌ {A = SandboxState} (record s { current_scale = scale }) s')
  unfolding scale_sandbox
  scale-cases scale s s' w w' h = elim (Option-cases (parse_memory_bytes num s.original_memory)) [
    | inl no_memory ↦ absurd (ground arith)
    | inr (m, e) ↦
        let updated = rt.update_resources s.runtime_id (update_for num rt cfg scale s m) w in
        elim (Bool-cases (is_ok updated.0)) [
          | inl t ↦ inr (ground arith)
          | inr t ↦ inl (ground arith)
        ]
  ]

  scale-IsGuarded :
      (scale : ℕ) (s s' : SandboxState) (w w' : W)
      → s.paused ≡ false
      → floor s.priority ≤ scale
      → IsGuarded s
      → scale_sandbox num rt cfg scale s w ≡ some (s', w')
      → IsGuarded s'
  scale-IsGuarded scale s s' w w' awake fits g h = elim (scale-cases scale s s' w w' h) [
    | inl e ↦ subst IsGuarded e g
    | inr e ↦ subst IsGuarded e (record {
      paused_at_0 = λ p. absurd (ground arith);
      paused_low = λ p. absurd (ground arith);
      at_floor = fits;
    })
  ]

  expand_scale-IsGuarded :
      (s s' : SandboxState) (w w' : W)
      → s.paused ≡ false
      → IsGuarded s
      → expand_scale num rt cfg s w ≡ some (s', w')
      → IsGuarded s'
  expand_scale-IsGuarded s s' w w' awake g h = elim (Bool-cases (ltb s.current_scale full)) [
    | inl e ↦ scale-IsGuarded full s s' w w' awake (floor-full s.priority) g (sym (rw e refl) ∙ h)
    | inr e ↦ returned IsGuarded s s' (w) w' g (sym (rw e refl) ∙ h)
  ]

  pub expand-IsGuarded :
      (s s' : SandboxState) (w w' : W)
      → IsGuarded s
      → expand num rt cfg s w ≡ some (s', w')
      → IsGuarded s'
  unfolding expand
  expand-IsGuarded s s' w w' g h = elim (Bool-cases s.paused) [
    | inr e ↦ expand_scale-IsGuarded s s' w w' e g (sym (rw (expand, e) refl) ∙ h)
    | inl e ↦ elim (Bool-cases (is_ok (rt.unpause s.runtime_id w).0)) [
      | inl f ↦
          let low : floor s.priority ≡ 0 = floor-low s.priority (g.paused_low e) in
          let awake : IsGuarded (record s { paused = false }) = record {
            paused_at_0 = λ p. absurd (ground arith);
            paused_low = λ p. absurd (ground arith);
            at_floor = g.at_floor;
          } in
          expand_scale-IsGuarded (record s { paused = false }) s' (rt.unpause s.runtime_id w).1 w'
            refl awake (sym (rw (expand, e, f) refl) ∙ h)
      | inr f ↦
          returned IsGuarded s s' ((rt.unpause s.runtime_id w).1) w' g
            (sym (rw (expand, e, f) refl) ∙ h)
    ]
  ]

  shrink-IsGuarded :
      (target : ℕ)
      → 2 ≤ target
      → (s s' : SandboxState) (w w' : W) → IsGuarded s
      → shrink num rt cfg target s w ≡ some (s', w')
      → IsGuarded s'
  unfolding shrink
  shrink-IsGuarded target fits s s' w w' g h =
      let scale = target_for s.priority target in
      elim (Bool-cases s.paused) [
        | inl e ↦ returned IsGuarded s s' (w) w' g (sym (rw (shrink, e) refl) ∙ h)
        | inr e ↦ elim (Bool-cases (s.current_scale == scale)) [
          | inl f ↦ returned IsGuarded s s' (w) w' g (sym (rw (shrink, e, f) refl) ∙ h)
          | inr f ↦
              scale-IsGuarded scale s s' w w' e (floor-target s.priority target fits) g
                (sym (rw (shrink, e, f) refl) ∙ h)
        ]
      ]

  pause-IsGuarded :
      (s s' : SandboxState) (w w' : W)
      → IsGuarded s
      → pause_if_low num rt cfg s w ≡ some (s', w')
      → IsGuarded s'
  unfolding pause_if_low
  pause-IsGuarded s s' w w' g h = elim (Bool-cases (is_low s.priority && not s.paused)) [
    | inr e ↦ returned IsGuarded s s' (w) w' g (sym (rw (pause_if_low, e) refl) ∙ h)
    | inl e ↦
        let low : is_low s.priority ≡ true = ground arith in
        let frozen : IsGuarded (record s { paused = true; current_scale = 0 }) = record {
          paused_at_0 = λ p. refl;
          paused_low = λ p. low;
          at_floor = omega (arith, floor-low s.priority low);
        } in
        elim (Bool-cases (is_ok (rt.pause s.runtime_id w).0)) [
          | inl f ↦
              returned IsGuarded (record s { paused = true; current_scale = 0 }) s'
                (rt.pause s.runtime_id w).1 w' frozen (sym (rw (pause_if_low, e, f) refl) ∙ h)
          | inr f ↦
              returned IsGuarded s s' (rt.pause s.runtime_id w).1 w' g
                (sym (rw (pause_if_low, e, f) refl) ∙ h)
        ]
  ]

  pub adjust-All :
      (p : PressureLevel) (d d' : Dict SandboxState) (w w' : W)
      → All IsGuarded d
      → adjust num rt cfg p d w ≡ some (d', w')
      → All IsGuarded d'
  unfolding adjust expand_all shrink_by_priority pause_low_priority
  adjust-All pressure_none d d' w w' g h =
      each-All IsGuarded (expand num rt cfg) expand-IsGuarded d d' w w' g h
  adjust-All pressure_normal d d' w w' g h =
      let same : d ≡ d' = ground arith in subst (All IsGuarded) same g
  adjust-All pressure_high d d' w w' g h =
      each-All IsGuarded (shrink num rt cfg 4) (shrink-IsGuarded 4 (omega arith)) d d' w w' g h
  adjust-All pressure_critical d d' w w' g h =
      elim (Option-cases (pause_low_priority num rt cfg d w)) [
        | inl none_left ↦ absurd (ground arith)
        | inr ((d1, w1), e) ↦
            let paused' =
              each-All IsGuarded (pause_if_low num rt cfg) pause-IsGuarded d d1 w w1 g e in
            each-All IsGuarded (shrink num rt cfg 2) (shrink-IsGuarded 2 (omega arith)) d1 d' w1 w'
              paused' (sym (rw (adjust, e) refl) ∙ h)
      ]
