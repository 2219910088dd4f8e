-- ===== src/Tests/Limits.antt =====
-- A team with a quota, over in-memory stores.
use sandboxmatrix.Base.{
  ℕ, ◌+◌, ◌^◌, ◌≤◌, ◌⊎◌, ◌↔◌, String, ◌≡◌, refl, false, none, [], ◌∷◌, str_eq, eq_iff, arith, ltb,
  if◌then◌else◌,
}
use sandboxmatrix.Base.Int.{pos, add_int}
use sandboxmatrix.Base.Dict.{Dict, lookup, insert}
use sandboxmatrix.Base.Action.{Result, message, quoted, ok, err}
use sandboxmatrix.Api.{Sandbox, Matrix, Session, running}
use sandboxmatrix.Api.Team.{Team, ResourceUsage}
use sandboxmatrix.State.Memory.{memory}
use sandboxmatrix.State.Memory.Laws.{memory-ListLaws}
use sandboxmatrix.State.Stores.{memory_team_store, sandbox_key}
use sandboxmatrix.Quota.{
  QuotaRequest, Numbers, Stored, Manager, check_quota, check_count, check_amount, check_cpu,
  check_bytes, check_limits, get_usage, sum_sandboxes, parse_resource_value,
}
use sandboxmatrix.Quota.Limits.{AreWithin, check_quota-AreWithin}
use sandboxmatrix.Quota.Overflow.{check_bytes_wraps}
use sandboxmatrix.Quota.Admission.{admitted-IsWithin}
use sandboxmatrix.Tests.Fixtures.{web}

-- A number of cores is whole, and the only texts that are numbers are these.
abbrev number : String → Result ℕ
number text =
    if str_eq text "1"
    then ok 1
    else if str_eq text "9223372036854775807"
    then ok 9223372036854775807
    else err (message "not a number")

abbrev whole : Numbers ℕ
whole = record {
  trim_space = λ s. s;
  to_upper = λ s. s;
  has_suffix = λ s t. false;
  without_end = λ n s. s;
  parse_int = number;
  parse_float = number;
  truncated = λ n. n;
  multiplied = λ n m. n;
  zero_cores = 0;
  plus = λ a b. a + b;
  above = λ a b. ltb b a;
}

abbrev crew : Team
crew = record {
  name = "crew";
  display_name = "";
  members = [];
  quota = record {
    max_sandboxes = pos 2;
    max_cpu = "";
    max_memory = "";
    max_disk = "";
    max_gpus = pos 0;
    max_matrices = pos 0;
    max_sessions = pos 0;
  };
  created_at = 0;
}

abbrev one_sandbox : QuotaRequest
one_sandbox = record {
  sandboxes = pos 1;
  cpu = "";
  memory = "";
  disk = "";
  gpus = pos 0;
  matrices = pos 0;
  sessions = pos 0;
}

abbrev manager : Manager (Dict Team) (Dict Sandbox) (Dict Matrix) (Dict Session)
manager = record {
  teams = memory_team_store;
  sandboxes = memory "sandbox not found" sandbox_key;
  matrices = none;
  sessions = none;
}

abbrev stored : Stored (Dict Team) (Dict Sandbox) (Dict Matrix) (Dict Session)
stored = record { teams = ("crew", crew) ∷ []; sandboxes = []; matrices = []; sessions = [] }

check_quota_example : (check_quota whole manager "crew" one_sandbox stored ≡ ok tt) ↔ (
    (t : Team) × (u : ResourceUsage ℕ) × (manager.teams.get "crew" stored.teams ≡ ok t)
    × (get_usage whole manager "crew" stored ≡ ok u)
    × AreWithin whole t.quota u one_sandbox)
check_quota_example = check_quota-AreWithin whole manager "crew" one_sandbox stored

-- The largest int64 is asked for while one byte is in use and one is the limit.
check_bytes_wraps_example :
    (check_bytes whole "memory" "crew" "1" 1 "9223372036854775807" ≡ ok tt)
    ↔ ((1 + 9223372036854775807 ≤ 1) ⊎ (2 ^ 63 ≤ 1 + 9223372036854775807))
unfolding parse_resource_value
check_bytes_wraps_example =
    check_bytes_wraps whole "memory" "crew" "1" "9223372036854775807" 1 9223372036854775807 1
      (λ e. ground (arith, eq_iff "1" "")) (λ e. ground (arith, eq_iff "9223372036854775807" ""))
      refl refl (omega arith) (omega arith) (omega arith)

abbrev ours : Sandbox
ours = let s = web running in record s { spec = record s.spec { team = "crew" } }

abbrev one_used : ResourceUsage ℕ
one_used = record {
  sandboxes = 1;
  cpu_cores = 0;
  memory_bytes = 0;
  disk_bytes = 0;
  gpus = pos 0;
  matrices = 0;
  sessions = 0;
}

admitted-IsWithin_example : one_used.sandboxes ≤ 2
unfolding check_quota get_usage sum_sandboxes check_limits check_count check_cpu check_bytes
    check_amount memory_team_store memory lookup insert add_int
admitted-IsWithin_example =
    admitted-IsWithin whole manager "crew" one_sandbox stored crew 2 ours
      (quoted "sandbox not found" "m-web") one_used
      (memory-ListLaws "sandbox not found" sandbox_key) refl refl refl refl (omega arith) refl refl
      refl
