-- ===== src/Autoscale/Sending.antt =====
-- The limits that the autoscaler sends to the runtime, under any calls.
use mathlib.Core.Path.{subst}
use sandboxmatrix.Base.{
  ℕ, zero, suc, ◌≤◌, String, ◌≡◌, ◌⊎◌, refl, sym, ap, ◌∙◌, true, false, not, ◌&&◌, some, List, [],
  ◌∷◌, ◌++◌, inl, inr, arith, Bool-cases, Option-cases, ltb, ◌==◌, if◌then◌else◌,
}
use sandboxmatrix.Base.Int.{ℤ, ltb_ℤ}
use sandboxmatrix.Base.Dict.{Dict}
use sandboxmatrix.Base.Action.{is_ok, Result-cases}
use sandboxmatrix.Autoscale.{
  Floats, Scaling, Config, ResourceUpdate, PressureLevel, pressure_none, pressure_normal,
  pressure_high, pressure_critical, full, is_low, SandboxState, target_for,
}
use sandboxmatrix.Autoscale.Host.{parse_memory_bytes, parse_cpu_cores, pressure}
use sandboxmatrix.Autoscale.Loop.{
  update_for, scale_sandbox, expand_scale, expand, expand_all, shrink, shrink_by_priority,
  pause_if_low, pause_low_priority, adjust, reconcile, loop,
}
use sandboxmatrix.Autoscale.Changes.{All, floor, floor-full, floor-target, scale-cases}
use sandboxmatrix.Autoscale.Guard.{Call}
use sandboxmatrix.Autoscale.Keeping.{Keeps, each_keeps, both}
use sandboxmatrix.Autoscale.Stopping.{Sent}

-- What a runtime was sent by UpdateResources, whether the call succeeded or not.
pub record Records {F W : Type 0} (rt : Scaling F W) : Type 0 where
  pub sent : W → Sent
  pub pause_sends : (id : String) (w : W) → sent (rt.pause id w).1 ≡ sent w
  pub unpause_sends : (id : String) (w : W) → sent (rt.unpause id w).1 ≡ sent w
  pub host_sends : (w : W) → sent (rt.host_info w).1 ≡ sent w
  pub update_sends :
      (id : String) (u : ResourceUpdate) (w : W)
      → sent (rt.update_resources id u w).1 ≡ sent w ++ (id, u) ∷ []

-- Some call registers a container with these limits and this priority.
abbrev pub IsRegistered : List Call → String → String → String → ℤ → Type 0
IsRegistered [] id cpu memory p = ⊥
IsRegistered (Call.registers n i c m q ∷ cs) id cpu memory p =
    ((i ≡ id) × (c ≡ cpu) × (m ≡ memory) × (q ≡ p)) ⊎ IsRegistered cs id cpu memory p
IsRegistered (Call.unregisters n ∷ cs) id cpu memory p = IsRegistered cs id cpu memory p
IsRegistered (Call.starts ∷ cs) id cpu memory p = IsRegistered cs id cpu memory p
IsRegistered (Call.ticks n ∷ cs) id cpu memory p = IsRegistered cs id cpu memory p
IsRegistered (Call.stops ∷ cs) id cpu memory p = IsRegistered cs id cpu memory p

module _ {F W : Type 0} (num : Floats F) (rt : Scaling F W) (cfg : Config F) (records : Records rt)
    (all : List Call) where
  -- A part of the limits, in eighths, and no less than the floors of the configuration.
  abbrev pub part_of : ℕ → String → ℤ → ResourceUpdate
  part_of scale cpu m =
      let memory = num.kept (num.scaled (num.of_int m) scale) in
      let cores = num.scaled (parse_cpu_cores num cpu) scale in
      record {
        cpu_quota = num.kept (
            num.times
              (if num.above cfg.min_cpu_per_sandbox cores then cfg.min_cpu_per_sandbox else cores)
              num.hundred_thousand);
        memory =
            if ltb_ℤ memory cfg.min_memory_per_sandbox then cfg.min_memory_per_sandbox else memory;
      }

  -- The limits sent are a part of those that the container was registered with, which its priority
  -- then allows.
  abbrev pub Fits : String × ResourceUpdate → Type 0
  Fits (id, u) =
      (cpu : String) × (memory : String) × (p : ℤ) × (m : ℤ) × (scale : ℕ) × IsRegistered all id cpu
        memory p
      × (parse_memory_bytes num memory ≡ some m)
      × (floor p ≤ scale)
      × (u ≡ part_of scale cpu m)

  abbrev pub AllFit : Sent → Type 0
  AllFit [] = Unit
  AllFit (x ∷ xs) = Fits x × AllFit xs

  AllFit-append :
      (xs : Sent) (x : String × ResourceUpdate) → AllFit xs → Fits x → AllFit (xs ++ x ∷ [])
  AllFit-append [] x h f = (f, tt)
  AllFit-append (y ∷ ys) x (g, h) f = (g, AllFit-append ys x h f)

  abbrev pub Stems : SandboxState → Type 0
  Stems s = IsRegistered all s.runtime_id s.original_cpu s.original_memory s.priority

  abbrev pub Fit : W → Type 0
  Fit w = AllFit (records.sent w)

  same_sent : (w w' : W) → records.sent w' ≡ records.sent w → Fit w → Fit w'
  same_sent w w' e h = subst AllFit (sym e) h

  scale_keeps :
      (scale : ℕ) (s s' : SandboxState) (w w' : W)
      → floor s.priority ≤ scale
      → Stems s
      → Fit w
      → scale_sandbox num rt cfg scale s w ≡ some (s', w')
      → Stems s' × Fit w'
  unfolding scale_sandbox update_for
  scale_keeps scale s s' w w' fits g q h =
      elim (Option-cases (parse_memory_bytes num s.original_memory)) [
        | inl panics ↦ absurd (ground arith)
        | inr (m, e) ↦
            let u = update_for num rt cfg scale s m in
            let updated = rt.update_resources s.runtime_id u w in
            let out : updated.1 ≡ w' = ground arith in
            let sent' : records.sent w' ≡ records.sent w ++ (s.runtime_id, u) ∷ [] =
              sym (ap records.sent out) ∙ records.update_sends s.runtime_id u w in
            let fit : Fits (s.runtime_id, u) =
              (s.original_cpu, s.original_memory, s.priority, m, scale, g, e, fits, refl) in
            (
              elim (scale-cases num rt cfg scale s s' w w' h) [
                | inl k ↦ subst Stems k g
                | inr k ↦ subst Stems k g
              ],
              subst AllFit (sym sent') (AllFit-append (records.sent w) (s.runtime_id, u) q fit),
            )
      ]

  expand_scale_keeps : Keeps Stems Fit (expand_scale num rt cfg)
  expand_scale_keeps s s' w w' g q h = elim (Bool-cases (ltb s.current_scale full)) [
    | inl e ↦ scale_keeps full s s' w w' (floor-full s.priority) g q (sym (rw e refl) ∙ h)
    | inr e ↦ both Stems Fit s s' w w' g q (sym (rw e refl) ∙ h)
  ]

  pub expand_keeps : Keeps Stems Fit (expand num rt cfg)
  unfolding expand
  expand_keeps s s' w w' g q h =
      let v = (rt.unpause s.runtime_id w).1 in
      let q' = same_sent w v (records.unpause_sends s.runtime_id w) q in
      elim (Bool-cases s.paused) [
        | inr e ↦ expand_scale_keeps s s' w w' g q (sym (rw (expand, e) refl) ∙ h)
        | inl e ↦ elim (Bool-cases (is_ok (rt.unpause s.runtime_id w).0)) [
          | inl f ↦
              expand_scale_keeps (record s { paused = false }) s' v w' g q'
                (sym (rw (expand, e, f) refl) ∙ h)
          | inr f ↦ both Stems Fit s s' v w' g q' (sym (rw (expand, e, f) refl) ∙ h)
        ]
      ]

  shrink_keeps : (target : ℕ) → 2 ≤ target → Keeps Stems Fit (shrink num rt cfg target)
  unfolding shrink
  shrink_keeps target fits s s' w w' g q h =
      let scale = target_for s.priority target in
      elim (Bool-cases s.paused) [
        | inl e ↦ both Stems Fit s s' w w' g q (sym (rw (shrink, e) refl) ∙ h)
        | inr e ↦ elim (Bool-cases (s.current_scale == scale)) [
          | inl f ↦ both Stems Fit s s' w w' g q (sym (rw (shrink, e, f) refl) ∙ h)
          | inr f ↦
              scale_keeps scale s s' w w' (floor-target s.priority target fits) g q
                (sym (rw (shrink, e, f) refl) ∙ h)
        ]
      ]

  pause_keeps : Keeps Stems Fit (pause_if_low num rt cfg)
  unfolding pause_if_low
  pause_keeps s s' w w' g q h =
      let v = (rt.pause s.runtime_id w).1 in
      let q' = same_sent w v (records.pause_sends s.runtime_id w) q in
      elim (Bool-cases (is_low s.priority && not s.paused)) [
        | inr e ↦ both Stems Fit s s' w w' g q (sym (rw (pause_if_low, e) refl) ∙ h)
        | inl e ↦ elim (Bool-cases (is_ok (rt.pause s.runtime_id w).0)) [
          | inl f ↦
              both Stems Fit (record s { paused = true; current_scale = 0 }) s' v w' g q'
                (sym (rw (pause_if_low, e, f) refl) ∙ h)
          | inr f ↦ both Stems Fit s s' v w' g q' (sym (rw (pause_if_low, e, f) refl) ∙ h)
        ]
      ]

  adjust_keeps :
      (p : PressureLevel) (d d' : Dict SandboxState) (w w' : W)
      → All Stems d
      → Fit w
      → adjust num rt cfg p d w ≡ some (d', w')
      → All Stems d' × Fit w'
  unfolding adjust expand_all shrink_by_priority pause_low_priority
  adjust_keeps pressure_none d d' w w' g q h =
      each_keeps Stems Fit (expand num rt cfg) expand_keeps d d' w w' g q h
  adjust_keeps pressure_normal d d' w w' g q h = both (All Stems) Fit d d' w w' g q h
  adjust_keeps pressure_high d d' w w' g q h =
      each_keeps Stems Fit (shrink num rt cfg 4) (shrink_keeps 4 (omega arith)) d d' w w' g q h
  adjust_keeps pressure_critical d d' w w' g q h =
      elim (Option-cases (pause_low_priority num rt cfg d w)) [
        | inl panics ↦ absurd (ground arith)
        | inr ((d1, w1), e) ↦
            let (g1, q1) =
              each_keeps Stems Fit (pause_if_low num rt cfg) pause_keeps d d1 w w1 g q e in
            each_keeps Stems Fit (shrink num rt cfg 2) (shrink_keeps 2 (omega arith)) d1 d' w1 w' g1
              q1 (sym (rw (adjust, e) refl) ∙ h)
      ]

  reconcile_keeps :
      (d d' : Dict SandboxState) (w w' : W)
      → All Stems d
      → Fit w
      → reconcile num rt cfg d w ≡ some (d', w')
      → All Stems d' × Fit w'
  unfolding reconcile
  reconcile_keeps d d' w w' g q h =
      let v = (rt.host_info w).1 in
      let q' = same_sent w v (records.host_sends w) q in
      elim (Result-cases (rt.host_info w).0) [
        | inr (x, e) ↦ both (All Stems) Fit d d' v w' g q' (sym (rw (reconcile, e) refl) ∙ h)
        | inl (host, e) ↦
            adjust_keeps (pressure num cfg host) d d' v w' g q' (sym (rw (reconcile, e) refl) ∙ h)
      ]

  pub loop_keeps :
      (n : ℕ) (d d' : Dict SandboxState) (w w' : W)
      → All Stems d
      → Fit w
      → loop num rt cfg n d w ≡ some (d', w')
      → All Stems d' × Fit w'
  unfolding loop
  loop_keeps zero d d' w w' g q h = both (All Stems) Fit d d' w w' g q h
  loop_keeps (suc n) d d' w w' g q h = elim (Option-cases (reconcile num rt cfg d w)) [
    | inl panics ↦ absurd (ground arith)
    | inr ((d1, w1), e) ↦
        let (g1, q1) = reconcile_keeps d d1 w w1 g q e in
        loop_keeps n d1 d' w1 w' g1 q1 (sym (rw (loop, e) refl) ∙ h)
  ]
