-- ===== src/Autoscale/Loop.antt =====
-- What the autoscaler does to the sandboxes that it tracks.
use sandboxmatrix.Base.{
  ℕ, zero, suc, true, false, ◌&&◌, not, Option, none, some, ltb, ◌==◌, if◌then◌else◌,
}
use sandboxmatrix.Base.Int.{ℤ, ltb_ℤ}
use sandboxmatrix.Base.Dict.{Dict}
use sandboxmatrix.Base.Action.{ok, err, is_ok}
use sandboxmatrix.Autoscale.{
  Floats, ResourceUpdate, Scaling, Config, PressureLevel, pressure_none, pressure_normal,
  pressure_high, pressure_critical, is_low, full, SandboxState, Autoscaler, target_for, each,
}
use sandboxmatrix.Autoscale.Host.{parse_memory_bytes, parse_cpu_cores, pressure}

module _ {F W : Type 0} (num : Floats F) (rt : Scaling F W) (cfg : Config F) where
  -- The new limits: a part of the first ones, and no less than the floors.
  unfoldable pub update_for : ℕ → SandboxState → ℤ → ResourceUpdate
  unfolding parse_cpu_cores
  update_for scale s memory =
      let scaled_memory = num.kept (num.scaled (num.of_int memory) scale) in
      let scaled_cpu = num.scaled (parse_cpu_cores num s.original_cpu) scale in
      let new_memory =
        if ltb_ℤ scaled_memory cfg.min_memory_per_sandbox
        then cfg.min_memory_per_sandbox
        else scaled_memory in
      let new_cpu =
        if num.above cfg.min_cpu_per_sandbox scaled_cpu
        then cfg.min_cpu_per_sandbox
        else scaled_cpu in
      record { cpu_quota = num.kept (num.times new_cpu num.hundred_thousand); memory = new_memory }

  unfoldable pub scale_sandbox : ℕ → SandboxState → W → Option (SandboxState × W)
  unfolding parse_memory_bytes update_for
  scale_sandbox scale s w = elim (parse_memory_bytes num s.original_memory) [
    | none ↦ none
    | some memory ↦
        let updated = rt.update_resources s.runtime_id (update_for scale s memory) w in
        some ((if is_ok updated.0 then record s { current_scale = scale } else s), updated.1)
  ]

  -- if s.CurrentScale < 1.0
  abbrev pub expand_scale : SandboxState → W → Option (SandboxState × W)
  expand_scale s w = if ltb s.current_scale full then scale_sandbox full s w else some (s, w)

  unfoldable pub expand : SandboxState → W → Option (SandboxState × W)
  unfolding scale_sandbox
  expand s w =
      let resumed = rt.unpause s.runtime_id w in
      if s.paused
      then (if is_ok resumed.0
          then expand_scale (record s { paused = false }) resumed.1
          else some (s, resumed.1))
      else expand_scale s w

  unfoldable pub expand_all : Dict SandboxState → W → Option (Dict SandboxState × W)
  unfolding expand
  expand_all = each expand

  unfoldable pub shrink : ℕ → SandboxState → W → Option (SandboxState × W)
  unfolding target_for scale_sandbox
  shrink target s w =
      let scale = target_for s.priority target in
      if s.paused
      then some (s, w)
      else if s.current_scale == scale
      then some (s, w)
      else scale_sandbox scale s w

  unfoldable pub shrink_by_priority : ℕ → Dict SandboxState → W → Option (Dict SandboxState × W)
  unfolding shrink
  shrink_by_priority target = each (shrink target)

  unfoldable pub pause_if_low : SandboxState → W → Option (SandboxState × W)
  pause_if_low s w =
      let frozen = rt.pause s.runtime_id w in
      if is_low s.priority && not s.paused
      then some
          ((if is_ok frozen.0 then record s { paused = true; current_scale = 0 } else s), frozen.1)
      else some (s, w)

  unfoldable pub pause_low_priority : Dict SandboxState → W → Option (Dict SandboxState × W)
  unfolding pause_if_low
  pause_low_priority = each pause_if_low

  -- The switch on the pressure.
  unfoldable pub adjust : PressureLevel → Dict SandboxState → W → Option (Dict SandboxState × W)
  unfolding expand_all shrink_by_priority pause_low_priority
  adjust pressure_none d w = expand_all d w
  adjust pressure_normal d w = some (d, w)
  adjust pressure_high d w = shrink_by_priority 4 d w
  adjust pressure_critical d w = elim (pause_low_priority d w) [
    | none ↦ none
    | some (d', w') ↦ shrink_by_priority 2 d' w'
  ]

  unfoldable pub reconcile : Dict SandboxState → W → Option (Dict SandboxState × W)
  unfolding adjust pressure
  reconcile d w =
      let host = rt.host_info w in
      elim host.0 [
        | err e ↦ some (d, host.1)
        | ok resources ↦ adjust (pressure num cfg resources) d host.1
      ]

  -- The ticks of the loop, until its context is cancelled.
  unfoldable pub loop : ℕ → Dict SandboxState → W → Option (Dict SandboxState × W)
  unfolding reconcile
  loop zero d w = some (d, w)
  loop (suc n) d w = elim (reconcile d w) [ none ↦ none | some (d', w') ↦ loop n d' w' ]

  unfoldable pub start : Autoscaler → Autoscaler
  start a = if a.running then a else record a { running = true }

  unfoldable pub stop : Autoscaler → W → Option (Autoscaler × W)
  unfolding expand_all
  stop a w =
      let restored = expand_all a.sandboxes w in
      if not a.running then some (a, w) else elim restored [
        | none ↦ none
        | some (d, w') ↦ some (record { sandboxes = d; running = false }, w')
      ]
