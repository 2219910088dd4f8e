-- ===== src/Autoscale/Host.antt =====
-- What the autoscaler reads: the limits that a sandbox was made with, and the pressure on the host.
use sandboxmatrix.Base.{ℕ, String, Option, none, some, ltb, str_eq, if◌then◌else◌}
use sandboxmatrix.Base.Int.{ℤ, pos, is_zero}
use sandboxmatrix.Base.Action.{ok, err}
use sandboxmatrix.Autoscale.{
  Floats, HostResources, Config, PressureLevel, pressure_none, pressure_normal, pressure_high,
  pressure_critical, rank,
}

module _ {F : Type 0} (num : Floats F) where
  abbrev default_memory : ℤ
  default_memory = pos 536870912

  -- v * unit for a text that parses, and the default for one that does not.
  abbrev multiplied : String → ℕ → ℤ
  multiplied text unit = elim (num.parse_float text) [
    | err e ↦ default_memory
    | ok v ↦ num.kept (num.times v (num.unit_bytes unit))
  ]

  abbrev with_unit : String → String → ℤ
  with_unit unit s =
      if str_eq unit "T"
      then multiplied (num.init s) 1099511627776
      else if str_eq unit "G"
      then multiplied (num.init s) 1073741824
      else if str_eq unit "M"
      then multiplied (num.init s) 1048576
      else if str_eq unit "K"
      then multiplied (num.init s) 1024
      else elim (num.parse_int s) [ err e ↦ default_memory | ok v ↦ v ]

  -- s[len(s)-1:] panics if nothing is left of the text.
  unfoldable pub parse_memory_bytes : String → Option ℤ
  parse_memory_bytes text =
      let s = num.trim_space text in
      if str_eq text ""
      then some default_memory
      else if num.has_suffix s "Gi"
      then some (multiplied (num.trim_suffix s "Gi") 1073741824)
      else if num.has_suffix s "Mi"
      then some (multiplied (num.trim_suffix s "Mi") 1048576)
      else if str_eq s ""
      then none
      else some (with_unit (num.to_upper (num.last s)) s)

  unfoldable pub parse_cpu_cores : String → F
  parse_cpu_cores s = if str_eq s "" then num.one else elim (num.parse_float (num.trim_space s)) [
    | err e ↦ num.one
    | ok v ↦ if num.above v num.zero then v else num.one
  ]

  -- used against the high and the low water mark
  abbrev level : F → F → F → PressureLevel
  level used high low =
      if num.above used (num.plus_tenth high)
      then pressure_critical
      else if num.above used high
      then pressure_high
      else if num.above used low
      then pressure_normal
      else pressure_none

  unfoldable pub memory_pressure : Config F → HostResources F → PressureLevel
  memory_pressure cfg host =
      let used = num.over (num.of_int host.used_memory) (num.of_int host.total_memory) in
      if is_zero host.total_memory
      then pressure_none
      else level used cfg.memory_high_water cfg.memory_low_water

  unfoldable pub cpu_pressure : Config F → HostResources F → PressureLevel
  cpu_pressure cfg host =
      level (num.over host.cpu_percent num.hundred) cfg.cpu_high_water cfg.cpu_low_water

  -- The higher of the two levels.
  unfoldable pub pressure : Config F → HostResources F → PressureLevel
  unfolding memory_pressure cpu_pressure
  pressure cfg host =
      let memory = memory_pressure cfg host in
      let cpu = cpu_pressure cfg host in if ltb (rank memory) (rank cpu) then cpu else memory
