-- ===== src/Autoscale/Stopping.antt =====
-- What Stop gives back.
use sandboxmatrix.Base.{
  ◌≤◌, String, ◌≡◌, false, Option, none, some, List, [], ◌∷◌, ◌++◌, ltb, if◌then◌else◌,
}
use sandboxmatrix.Base.Int.{ℤ, ltb_ℤ}
use sandboxmatrix.Base.Dict.{Dict}
use sandboxmatrix.Base.Action.{ok}
use sandboxmatrix.Autoscale.{Floats, Scaling, Config, ResourceUpdate, full, SandboxState}
use sandboxmatrix.Autoscale.Host.{parse_memory_bytes, parse_cpu_cores}

-- The calls of UpdateResources that a runtime has had.
abbrev pub Sent : Type 0
Sent = List (String × ResourceUpdate)

-- A runtime on which Unpause and UpdateResources succeed, with what was sent to it.
pub record Obeys {F W : Type 0} (rt : Scaling F W) : Type 0 where
  pub sent : W → Sent
  pub unpauses : (id : String) (w : W) → (rt.unpause id w).0 ≡ ok tt
  pub unpause_sends : (id : String) (w : W) → sent (rt.unpause id w).1 ≡ sent w
  pub updates : (id : String) (u : ResourceUpdate) (w : W) → (rt.update_resources id u w).0 ≡ ok tt
  pub update_sends :
      (id : String) (u : ResourceUpdate) (w : W)
      → sent (rt.update_resources id u w).1 ≡ sent w ++ (id, u) ∷ []

module _ {F W : Type 0} (num : Floats F) (rt : Scaling F W) (cfg : Config F) where
  -- The limits that the sandbox was registered with, m being its memory, and no less than the floors.
  abbrev pub full_limits : SandboxState → ℤ → ResourceUpdate
  full_limits s m =
      let memory = num.kept (num.of_int m) in
      let cores = parse_cpu_cores num s.original_cpu in
      record {
        cpu_quota = num.kept (
            num.times
              (if num.above cfg.min_cpu_per_sandbox cores then cfg.min_cpu_per_sandbox else cores)
              num.hundred_thousand);
        memory =
            if ltb_ℤ memory cfg.min_memory_per_sandbox then cfg.min_memory_per_sandbox else memory;
      }

  abbrev sends : SandboxState → Option ℤ → Sent
  sends s none = []
  sends s (some m) = if ltb s.current_scale full then (s.runtime_id, full_limits s m) ∷ [] else []

  -- Each sandbox below its full limits is sent them.
  abbrev pub restoring : Dict SandboxState → Sent
  restoring [] = []
  restoring ((k, s) ∷ d) = sends s (parse_memory_bytes num s.original_memory) ++ restoring d

  -- The sandbox runs at its full scale.
  abbrev pub IsRestored : SandboxState → Type 0
  IsRestored s = (s.paused ≡ false) × (full ≤ s.current_scale)

  -- The memory limit that the sandbox was registered with does not make the reading of it panic.
  abbrev pub HasLimits : SandboxState → Type 0
  HasLimits s = (m : ℤ) × (parse_memory_bytes num s.original_memory ≡ some m)
