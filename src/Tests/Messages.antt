-- ===== src/Tests/Messages.antt =====
-- Messages between two agents, and a collector that reads some of them.
use sandboxmatrix.Base.{
  ℕ, String, ◌≡◌, refl, inl, inr, none, some, List, [], ◌∷◌, ◌++◌, keep, length,
}
use sandboxmatrix.Base.Int.{pos}
use sandboxmatrix.Base.Dict.{lookup, insert, remove}
use sandboxmatrix.Base.Action.{Result, ok}
use sandboxmatrix.Api.Task.{TaskResult}
use sandboxmatrix.Agent.Gateway.{Message, Gateway, inbox, has_type, deliver, send, receive_by_type}
use sandboxmatrix.Agent.Gateway.Traffic.{Op, run, put, taken}
use sandboxmatrix.Agent.Gateway.Queues.{run_queue}
use sandboxmatrix.Aggregation.{
  Signal, Collected, AggregatedResult, build_result, is_complete, any_success, count_succeeded,
  count_failed, parse_results, collect_loop, collect,
}
use sandboxmatrix.Aggregation.Completion.{
  AreOf, successes, failures, Stopped, collect_ends, collect_returns,
}

abbrev letter : String → String → Message
letter type payload = record {
  id = "";
  from = "a";
  to = "b";
  type = type;
  payload = payload;
  created_at = 0;
}

-- A result, a note, and a receiver of notes.
abbrev ops : List (Op String)
ops =
    Op.sends "m1" 1 (letter "task-result" "t")
    ∷ Op.sends "m2" 2 (letter "note" "hello")
    ∷ Op.receives_type "b" "note"
    ∷ []

abbrev empty : Gateway String
empty = record { inboxes = []; handlers = []; calls = [] }

run_queue_example :
    keep (has_type "note") (inbox "b" empty) ++ keep (has_type "note") (put "b" ops empty)
    ≡ keep (has_type "note") (taken "b" ops empty)
      ++ keep (has_type "note") (inbox "b" (run ops empty))
run_queue_example = run_queue "b" "note" ops empty

abbrev new_ids : ℕ → String
new_ids k = "m"

abbrev sender : String
sender = "a"

abbrev note : String
note = "note"

abbrev to_two : List String
to_two = "b" ∷ "c" ∷ []

abbrev times : ℕ → ℕ
times k = k

abbrev result_of : String → TaskResult
result_of task = record {
  member_name = "a";
  task_id = task;
  status = "success";
  output = "";
  error = "";
  completed_at = none;
}

abbrev unmarshal : String → Result TaskResult
unmarshal text = ok (result_of text)

-- One tick after which the result has come, and the deadline.
abbrev signals : List (Signal String)
signals = Signal.tick ops ∷ Signal.expired ∷ []

abbrev found : AggregatedResult
found = record {
  task_id = "t";
  strategy = "collect-all";
  results = result_of "t" ∷ [];
  total = 1;
  succeeded = 1;
  failed = 0;
}

abbrev after : Gateway String
after = (receive_by_type "b" "task-result" (run ops empty)).1

collect_ends_example :
    (found.task_id ≡ "t")
    × (found.total ≡ 1)
    × (found.succeeded ≡ length (successes found.results))
    × (found.failed ≡ length (failures found.results))
    × AreOf "t" found.results
    × Stopped "collect-all" (pos 1) signals found.results none
unfolding collect collect_loop receive_by_type is_complete parse_results build_result any_success
    count_succeeded count_failed deliver send lookup insert remove
collect_ends_example =
    collect_ends unmarshal "b" "t" (pos 1) none signals empty after found none refl

collect_returns_example :
    (out : Collected String) × (collect unmarshal "b" "t" (pos 1) none signals empty ≡ some out)
collect_returns_example =
    collect_returns unmarshal "b" "t" (pos 1) none Signal.expired signals empty (inl refl)
      (inr (inl refl))

abbrev quiet : List (Signal String)
quiet = Signal.tick (Op.sends "m1" 1 (letter "task-result" "t") ∷ []) ∷ Signal.expired ∷ []

abbrev after_quiet : Gateway String
after_quiet =
    (receive_by_type "b" "task-result"
      (run (Op.sends "m1" 1 (letter "task-result" "t") ∷ []) empty)).1
