-- ===== src/Autoscale.antt =====
-- internal/autoscale/autoscaler.go. A scale is one of 0, 1/8, 1/4, 1/2, 3/4 and 1, which a float64 holds
-- exactly, and stands here in eighths; the other float64 values, strconv and strings are parameters. The
-- map is visited in the order of its list. `none` is a panic. The goroutine of Start is the list of
-- the moments at which its ticker fires; logs are left out.
pub mod Host
pub mod Loop
pub mod Changes
pub mod Guard
pub mod Restoring
pub mod Stopping
pub mod Keeping
pub mod Sending
pub mod Parts
pub mod Panics
use sandboxmatrix.Base.{
  ℕ, zero, suc, ◌/◌, ◌*◌, String, Bool, true, false, ◌&&◌, ◌||◌, not, Option, none, some, List, [],
  ◌∷◌, length, ltb, leb, ◌==◌, str_eq, if◌then◌else◌,
}
use sandboxmatrix.Base.Int.{ℤ, pos, negsuc, is_zero, ltb_ℤ}
use sandboxmatrix.Base.Dict.{Dict, lookup, insert, remove}
use sandboxmatrix.Base.Action.{Action, Result, Error, ok, err, is_ok}

-- What the code computes with float64 and takes from strconv and strings. `scaled x n` is x * n / 8,
-- `kept` is int64 and `above a b` is a > b; last is s[len(s)-1:] and init is s[:len(s)-1].
pub record Floats (F : Type 0) : Type 0 where
  pub trim_space : String → String
  pub has_suffix : String → String → Bool
  pub trim_suffix : String → String → String
  pub last : String → String
  pub init : String → String
  pub to_upper : String → String
  pub parse_int : String → Result ℤ
  pub parse_float : String → Result F
  pub of_int : ℤ → F
  pub kept : F → ℤ
  pub scaled : F → ℕ → F
  pub times : F → F → F
  pub over : F → F → F
  pub plus_tenth : F → F
  pub above : F → F → Bool
  pub zero : F
  pub one : F
  pub hundred : F
  pub hundred_thousand : F
  pub unit_bytes : ℕ → F

pub record ResourceUpdate : Type 0 where
  pub cpu_quota : ℤ
  pub memory : ℤ

pub record HostResources (F : Type 0) : Type 0 where
  pub total_memory : ℤ
  pub used_memory : ℤ
  pub cpu_percent : F

-- The methods of runtime.Runtime that the autoscaler calls.
pub record Scaling (F W : Type 0) : Type 0 where
  pub pause : String → Action W (Unit {0})
  pub unpause : String → Action W (Unit {0})
  pub update_resources : String → ResourceUpdate → Action W (Unit {0})
  pub host_info : Action W (HostResources F)

-- Enabled and Interval, which the modelled methods do not read, are left out.
pub record Config (F : Type 0) : Type 0 where
  pub memory_high_water : F
  pub memory_low_water : F
  pub cpu_high_water : F
  pub cpu_low_water : F
  pub min_memory_per_sandbox : ℤ
  pub min_cpu_per_sandbox : F

pub data PressureLevel : Type 0 where
  pressure_none pressure_normal pressure_high pressure_critical : PressureLevel

-- runtime.SandboxPriority: 0 is low, 1 normal, 2 high and 3 critical; no other value has a name.
abbrev pub priority_low : ℤ
priority_low = pos 0

-- s.Priority <= runtime.PriorityLow
abbrev pub is_low : ℤ → Bool
is_low p = not (ltb_ℤ priority_low p)

abbrev pub full : ℕ
full = 8

pub record SandboxState : Type 0 where
  pub name : String
  pub runtime_id : String
  pub priority : ℤ
  pub original_cpu : String
  pub original_memory : String
  pub current_scale : ℕ
  pub paused : Bool

pub record Autoscaler : Type 0 where
  pub sandboxes : Dict SandboxState
  pub running : Bool

unfoldable pub new_autoscaler : Autoscaler
new_autoscaler = record { sandboxes = []; running = false }

unfoldable pub register_sandbox : String → String → String → String → ℤ → Autoscaler → Autoscaler
register_sandbox name runtime_id cpu memory priority a = record a {
  sandboxes =
      insert name
        (record {
          name = name;
          runtime_id = runtime_id;
          priority = priority;
          original_cpu = cpu;
          original_memory = memory;
          current_scale = full;
          paused = false;
        })
        a.sandboxes;
}

unfoldable pub unregister_sandbox : String → Autoscaler → Autoscaler
unregister_sandbox name a = record a { sandboxes = remove name a.sandboxes }

unfoldable pub set_priority : String → ℤ → Autoscaler → Autoscaler
set_priority name priority a = elim (lookup name a.sandboxes) [
  | none ↦ a
  | some s ↦ record a { sandboxes = insert name (record s { priority = priority }) a.sandboxes }
]

unfoldable pub paused_count : Dict SandboxState → ℕ
paused_count [] = 0
paused_count ((k, s) ∷ d) = let rest = paused_count d in if s.paused then suc rest else rest

abbrev pub rank : PressureLevel → ℕ
rank pressure_none = 0
rank pressure_normal = 1
rank pressure_high = 2
rank pressure_critical = 3

-- maxFloat on scales
abbrev pub max_scale : ℕ → ℕ → ℕ
max_scale a b = if ltb b a then a else b

-- The switch on the priority.
unfoldable pub target_for : ℤ → ℕ → ℕ
target_for (pos zero) target = target / 2
target_for (pos (suc zero)) target = target
target_for (pos (suc (suc zero))) target = max_scale target 4
target_for (pos (suc (suc (suc zero)))) target = max_scale target 6
target_for (pos (suc (suc (suc (suc p))))) target = target
target_for (negsuc p) target = target

-- A loop over the tracked sandboxes, each of which its body may change.
abbrev pub each :
    {W : Type 0}
    → (SandboxState → W → Option (SandboxState × W))
    → Dict SandboxState
    → W
    → Option (Dict SandboxState × W)
each f [] w = some ([], w)
each f ((k, s) ∷ d) w = elim (f s w) [
  | none ↦ none
  | some (s', w') ↦ elim (each f d w') [ none ↦ none | some (d', w'') ↦ some ((k, s') ∷ d', w'') ]
]
