-- ===== src/Aggregation.antt =====
-- internal/aggregation/aggregation.go. What wakes the loop of Collect is a list of signals: the ticker,
-- with what the other agents did at the gateway since the last one, the deadline, or the context. When
-- several are ready at once Go takes any one of them, which is one such list. json.Unmarshal is a
-- parameter; the deadline is a signal, so the length of the timeout is only computed.
pub mod Completion
pub mod Gathering
use sandboxmatrix.Base.{
  ℕ, suc, ◌+◌, ◌/◌, String, Bool, true, false, ◌||◌, Option, none, some, List, [], ◌∷◌, ◌++◌,
  length, keep, ltb, leb, str_eq, if◌then◌else◌,
}
use sandboxmatrix.Base.Int.{ℤ, pos, negsuc, is_pos, to_ℕ}
use sandboxmatrix.Base.Action.{Result, Error, ok, err}
use sandboxmatrix.Api.Task.{AggregationConfig, TaskResult}
use sandboxmatrix.Agent.Gateway.{Message, Gateway, receive_by_type}
use sandboxmatrix.Agent.Gateway.Traffic.{Op, run}

pub record AggregatedResult : Type 0 where
  pub task_id : String
  pub strategy : String
  pub results : List TaskResult
  pub total : ℕ
  pub succeeded : ℕ
  pub failed : ℕ

pub data Signal (H : Type 0) : Type 0 where
  tick : List (Op H) → Signal H
  expired : Signal H
  cancelled : Error → Signal H

-- The strategy and the timeout in seconds, with their defaults.
abbrev pub chosen_strategy : Option AggregationConfig → String
chosen_strategy none = "collect-all"
chosen_strategy (some cfg) = if str_eq cfg.strategy "" then "collect-all" else cfg.strategy

abbrev pub chosen_timeout : Option AggregationConfig → ℕ
chosen_timeout none = 60
chosen_timeout (some cfg) = if is_pos cfg.timeout_sec then to_ℕ cfg.timeout_sec else 60

-- r.Status == "success"
abbrev pub is_success : TaskResult → Bool
is_success r = str_eq r.status "success"

unfoldable pub count_succeeded : List TaskResult → ℕ
count_succeeded [] = 0
count_succeeded (r ∷ rs) = let rest = count_succeeded rs in if is_success r then suc rest else rest

-- The `default` case of buildResult.
unfoldable pub count_failed : List TaskResult → ℕ
count_failed [] = 0
count_failed (r ∷ rs) = let rest = count_failed rs in if is_success r then rest else suc rest

unfoldable pub any_success : List TaskResult → Bool
any_success [] = false
any_success (r ∷ rs) = is_success r || any_success rs

unfoldable pub build_result : String → String → List TaskResult → AggregatedResult
unfolding count_succeeded count_failed
build_result task_id strategy results = record {
  task_id = task_id;
  strategy = strategy;
  results = results;
  total = length results;
  succeeded = count_succeeded results;
  failed = count_failed results;
}

-- n > z / 2, where Go's division drops the fraction towards 0
abbrev pub above_half : ℕ → ℤ → Bool
above_half n (pos z) = ltb (z / 2) n
above_half n (negsuc z) = ltb 0 (n + suc z / 2)

-- n >= z
abbrev pub at_least : ℕ → ℤ → Bool
at_least n (pos z) = leb z n
at_least n (negsuc z) = true

-- The switch on the strategy.
unfoldable pub is_complete : String → ℤ → List TaskResult → Bool
unfolding any_success count_succeeded
is_complete strategy expected results =
    if str_eq strategy "first-success"
    then any_success results
    else if str_eq strategy "majority"
    then above_half (count_succeeded results) expected
    else at_least (length results) expected

-- The loop over the polled messages.
unfoldable pub parse_results :
    (String → Result TaskResult) → String → List Message → List TaskResult
parse_results unmarshal task_id [] = []
parse_results unmarshal task_id (m ∷ ms) =
    let rest = parse_results unmarshal task_id ms in
    elim (unmarshal m.payload) [
      | err e ↦ rest
      | ok r ↦ if str_eq r.task_id task_id then r ∷ rest else rest
    ]

abbrev pub task_result : String
task_result = "task-result"

-- What Collect returns, with the gateway that it leaves.
abbrev pub Collected : Type 0 → Type 0
Collected H = (AggregatedResult × Option Error) × Gateway H

module _ {H : Type 0} (unmarshal : String → Result TaskResult)
    (coordinator task_id strategy : String) (expected : ℤ) where
  -- With no further signal, Collect is still waiting.
  unfoldable pub collect_loop : List TaskResult → List (Signal H) → Gateway H → Option (Collected H)
  unfolding receive_by_type build_result is_complete parse_results
  collect_loop results [] g = none
  collect_loop results (Signal.cancelled e ∷ ss) g =
      some ((build_result task_id strategy results, some e), g)
  collect_loop results (Signal.expired ∷ ss) g =
      some ((build_result task_id strategy results, none), g)
  collect_loop results (Signal.tick os ∷ ss) g =
      let polled = receive_by_type coordinator task_result (run os g) in
      let now = results ++ parse_results unmarshal task_id polled.0 in
      let rest = collect_loop now ss polled.1 in
      if is_complete strategy expected now
      then some ((build_result task_id strategy now, none), polled.1)
      else rest

unfoldable pub collect :
    {H : Type 0}
    → (String → Result TaskResult)
    → String
    → String
    → ℤ
    → Option AggregationConfig
    → List (Signal H)
    → Gateway H
    → Option (Collected H)
unfolding collect_loop
collect unmarshal coordinator task_id expected cfg ss g =
    collect_loop unmarshal coordinator task_id (chosen_strategy cfg) expected [] ss g
