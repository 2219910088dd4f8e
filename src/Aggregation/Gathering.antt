-- ===== src/Aggregation/Gathering.antt =====
-- Collect and the inbox that it reads: which results it gathers.
use sandboxmatrix.Base.{ℕ, String, ◌≡◌, false, List, [], ◌∷◌, ◌++◌, take, keep, str_eq}
use sandboxmatrix.Base.Int.{ℤ}
use sandboxmatrix.Base.Action.{Result}
use sandboxmatrix.Api.Task.{TaskResult}
use sandboxmatrix.Agent.Gateway.{Gateway, has_type}
use sandboxmatrix.Agent.Gateway.Traffic.{Op, run, taken}
use sandboxmatrix.Aggregation.{Signal, parse_results, task_result}

-- No one but the collector takes messages from the inbox of k.
abbrev pub Leaves : {H : Type 0} → String → Op H → Type 0
Leaves k (Op.sends id now msg) = Unit
Leaves k (Op.receives j) = str_eq j k ≡ false
Leaves k (Op.receives_type j t) = str_eq j k ≡ false
Leaves k (Op.subscribes j h) = Unit

abbrev pub AllLeave : {H : Type 0} → String → List (Op H) → Type 0
AllLeave k [] = Unit
AllLeave k (o ∷ os) = Leaves k o × AllLeave k os

abbrev pub AreLeaving : {H : Type 0} → String → List (Signal H) → Type 0
AreLeaving k [] = Unit
AreLeaving k (Signal.tick os ∷ ss) = AllLeave k os × AreLeaving k ss
AreLeaving k (Signal.expired ∷ ss) = AreLeaving k ss
AreLeaving k (Signal.cancelled e ∷ ss) = AreLeaving k ss

-- The gateway's operations up to the end of some signals, those of the collector included.
abbrev pub traffic : {H : Type 0} → String → List (Signal H) → List (Op H)
traffic k [] = []
traffic k (Signal.tick os ∷ ss) = os ++ Op.receives_type k task_result ∷ traffic k ss
traffic k (Signal.expired ∷ ss) = []
traffic k (Signal.cancelled e ∷ ss) = []

module _ {H : Type 0} where
  module _ (unmarshal : String → Result TaskResult) (coordinator task_id strategy : String)
      (expected : ℤ) where
    -- What Collect took of the inbox, in the first signals.
    abbrev Gathered :
        List TaskResult → List (Signal H) → Gateway H → List TaskResult → Gateway H → Type 0
    Gathered acc ss g results g' =
        (n : ℕ) × (g' ≡ run (traffic coordinator (take n ss)) g)
        × (results
            ≡ acc
              ++ parse_results unmarshal task_id (
                  keep (has_type task_result)
                    (taken coordinator (traffic coordinator (take n ss)) g)))
