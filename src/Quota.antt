-- ===== src/Quota.antt =====
-- internal/quota/manager.go. An int64 is its two's complement, a number below 2 ^ 64; a float64 and what
-- strconv, strings and math do are parameters. A QuotaExceededError is the resource and the team: its
-- other fields, which formatBytes writes, are text only.
pub mod Limits
pub mod Overflow
pub mod Admission
use sandboxmatrix.Base.{
  ℕ, suc, ◌+◌, ◌%◌, ◌^◌, String, Bool, true, false, ◌&&◌, ◌||◌, not, Option, none, some, List, [],
  ◌∷◌, ltb, str_eq, if◌then◌else◌,
}
use sandboxmatrix.Base.Int.{ℤ, pos, negsuc, is_pos, ltb_ℤ, ◌+ℤ◌, add_int}
use sandboxmatrix.Base.Action.{Result, Error, message, quoted, wrap, ok, err, wrapped}
use sandboxmatrix.Api.{Sandbox, Matrix, Session, SessionState, active, completed, failed, GpuSpec}
use sandboxmatrix.Api.Team.{Team, ResourceQuota, ResourceUsage}
use sandboxmatrix.State.{Store}

pub record QuotaRequest : Type 0 where
  pub sandboxes : ℤ
  pub cpu : String
  pub memory : String
  pub disk : String
  pub gpus : ℤ
  pub matrices : ℤ
  pub sessions : ℤ

-- Go's conversions and tests: `multiplied n m` is int64(math.Round(n * float64(m))), `without_end k s`
-- is s[:len(s)-k], and `above a b` is a > b.
pub record Numbers (F : Type 0) : Type 0 where
  pub trim_space : String → String
  pub to_upper : String → String
  pub has_suffix : String → String → Bool
  pub without_end : ℕ → String → String
  pub parse_int : String → Result ℕ
  pub parse_float : String → Result F
  pub truncated : F → ℕ
  pub multiplied : F → ℕ → ℕ
  pub zero_cores : F
  pub plus : F → F → F
  pub above : F → F → Bool

-- a + b on int64
abbrev pub add_int64 : ℕ → ℕ → ℕ
add_int64 a b = (a + b) % 2 ^ 64

-- a > b on int64
abbrev pub above_int64 : ℕ → ℕ → Bool
above_int64 a b = ltb ((b + 2 ^ 63) % 2 ^ 64) ((a + 2 ^ 63) % 2 ^ 64)

-- The suffixes in the order in which the switch tries them, with their lengths and multipliers.
abbrev pub suffixes : List (String × ℕ × ℕ)
suffixes =
    ("TI", 2, 1099511627776)
    ∷ ("GI", 2, 1073741824)
    ∷ ("MI", 2, 1048576)
    ∷ ("KI", 2, 1024)
    ∷ ("T", 1, 1000000000000)
    ∷ ("G", 1, 1000000000)
    ∷ ("M", 1, 1000000)
    ∷ ("K", 1, 1000)
    ∷ []

-- if err != nil { return err } and then the next check
abbrev pub and_then : Result (Unit {0}) → Result (Unit {0}) → Result (Unit {0})
and_then (ok u) r = r
and_then (err e) r = err e

-- if max > 0 && request > 0 && total > max, where the caller adds up the usage and the request.
unfoldable pub check_count : String → String → ℤ → ℤ → ℤ → Result (Unit {0})
check_count resource team max total request =
    if is_pos max && is_pos request && ltb_ℤ max total then err (quoted resource team) else ok tt

-- The check of an amount that is written as text: nothing if a text is missing, the error of a text that
-- does not parse, and the test.
unfoldable pub check_amount :
    {A : Type 0}
    → (String → Result A)
    → (A → A → Bool)
    → Error
    → String
    → String
    → Result (Unit {0})
check_amount parse is_over exceeded max request =
    if str_eq max "" || str_eq request "" then ok tt else elim (parse max) [
      | err e ↦ err (wrap "parse team maximum" e)
      | ok m ↦ elim (parse request) [
        | err e ↦ err (wrap "parse request" e)
        | ok r ↦ if is_over r m then err exceeded else ok tt
      ]
    ]

-- Whether the team has a sandbox of the name.
unfoldable pub team_has : String → String → List Sandbox → Bool
team_has team name [] = false
team_has team name (s ∷ ss) =
    str_eq s.spec.team team && str_eq s.metadata.name name || team_has team name ss

unfoldable pub count_matrices : String → List Matrix → ℕ
count_matrices team [] = 0
count_matrices team (m ∷ ms) =
    let rest = count_matrices team ms in if str_eq m.spec.team team then suc rest else rest

abbrev pub is_active : SessionState → Bool
is_active active = true
is_active completed = false
is_active failed = false

unfoldable pub count_sessions : String → List Sandbox → List Session → ℕ
unfolding team_has
count_sessions team sandboxes [] = 0
count_sessions team sandboxes (s ∷ ss) =
    let rest = count_sessions team sandboxes ss in
    if is_active s.state && team_has team s.sandbox sandboxes then suc rest else rest

abbrev pub gpu_count : Option GpuSpec → ℤ
gpu_count none = pos 0
gpu_count (some g) = g.count

-- What the manager's pointers refer to.
pub record Stored (T S M N : Type 0) : Type 0 where
  pub teams : T
  pub sandboxes : S
  pub matrices : M
  pub sessions : N

-- A store that is nil is `none`.
pub record Manager (T S M N : Type 0) : Type 0 where
  pub teams : Store T Team
  pub sandboxes : Store S Sandbox
  pub matrices : Option (Store M Matrix)
  pub sessions : Option (Store N Session)

module _ {F : Type 0} (num : Numbers F) where
  unfoldable pub parse_suffix : List (String × ℕ × ℕ) → String → Result ℕ
  parse_suffix [] val = err (quoted "unrecognized resource value" val)
  parse_suffix ((suffix, width, multiplier) ∷ rest) val =
      let next = parse_suffix rest val in
      if num.has_suffix (num.to_upper val) suffix
      then elim (num.parse_float (num.without_end width val)) [
        | err e ↦ err (wrap "parse numeric part" e)
        | ok n ↦ ok (num.multiplied n multiplier)
      ]
      else next

  unfoldable pub parse_resource_value : String → Result ℕ
  unfolding parse_suffix
  parse_resource_value text =
      let val = num.trim_space text in
      if str_eq val "" then err (message "empty resource value") else elim (num.parse_int val) [
        | ok n ↦ ok n
        | err e ↦ elim (num.parse_float val) [
          | ok n ↦ ok (num.truncated n)
          | err e ↦ parse_suffix suffixes val
        ]
      ]

  unfoldable pub parse_cpu : String → Result F
  parse_cpu text =
      let val = num.trim_space text in
      if str_eq val ""
      then err (message "empty CPU value")
      else wrapped "parse CPU value" (num.parse_float val)

  -- The accumulation of CPU and of bytes: what does not parse counts as nothing.
  abbrev pub add_cpu : String → F → F
  add_cpu text used =
      if str_eq text ""
      then used
      else elim (parse_cpu text) [ err e ↦ used | ok cpu ↦ num.plus used cpu ]

  abbrev pub add_bytes : String → ℕ → ℕ
  add_bytes text used =
      if str_eq text ""
      then used
      else elim (parse_resource_value text) [ err e ↦ used | ok n ↦ add_int64 used n ]

  abbrev pub add_sandbox : Sandbox → ResourceUsage F → ResourceUsage F
  add_sandbox s u = record u {
    sandboxes = suc u.sandboxes;
    cpu_cores = add_cpu s.spec.resources.cpu u.cpu_cores;
    memory_bytes = add_bytes s.spec.resources.memory u.memory_bytes;
    disk_bytes = add_bytes s.spec.resources.disk u.disk_bytes;
    gpus = add_int u.gpus (gpu_count s.spec.resources.gpu);
  }

  abbrev pub no_usage : ResourceUsage F
  no_usage = record {
    sandboxes = 0;
    cpu_cores = num.zero_cores;
    memory_bytes = 0;
    disk_bytes = 0;
    gpus = pos 0;
    matrices = 0;
    sessions = 0;
  }

  unfoldable pub sum_sandboxes : String → List Sandbox → ResourceUsage F → ResourceUsage F
  unfolding parse_cpu parse_resource_value
  sum_sandboxes team [] u = u
  sum_sandboxes team (s ∷ ss) u =
      let skipped = sum_sandboxes team ss u in
      let added = sum_sandboxes team ss (add_sandbox s u) in
      if str_eq s.spec.team team then added else skipped

  unfoldable pub check_cpu : String → String → F → String → Result (Unit {0})
  unfolding check_amount parse_cpu
  check_cpu team max used request =
      check_amount parse_cpu (λ r m. num.above (num.plus used r) m) (quoted "cpu" team) max request

  -- The checks of memory and of disk space.
  unfoldable pub check_bytes : String → String → String → ℕ → String → Result (Unit {0})
  unfolding check_amount parse_resource_value
  check_bytes resource team max used request =
      check_amount parse_resource_value (λ r m. above_int64 (add_int64 used r) m)
        (quoted resource team) max request

  -- The checks in the order of CheckQuota. The usage of sandboxes, matrices and sessions is the length of
  -- a list, and a request for them is 1 or the length of one: their sums are far from 2 ^ 63. The GPUs are
  -- counts that a blueprint names, and their sum wraps around.
  unfoldable pub check_limits :
      String → ResourceQuota → ResourceUsage F → QuotaRequest → Result (Unit {0})
  unfolding check_count check_cpu check_bytes
  check_limits team q u r =
      and_then
        (check_count "sandboxes" team q.max_sandboxes (pos u.sandboxes +ℤ r.sandboxes) r.sandboxes)
        (and_then (check_cpu team q.max_cpu u.cpu_cores r.cpu) (
          and_then (check_bytes "memory" team q.max_memory u.memory_bytes r.memory) (
            and_then (check_bytes "disk" team q.max_disk u.disk_bytes r.disk) (
              and_then (check_count "gpus" team q.max_gpus (add_int u.gpus r.gpus) r.gpus) (
                and_then
                  (check_count "matrices" team q.max_matrices (pos u.matrices +ℤ r.matrices)
                    r.matrices)
                  (check_count "sessions" team q.max_sessions (pos u.sessions +ℤ r.sessions)
                    r.sessions))))))

  module _ {T S M N : Type 0} (m : Manager T S M N) where
    abbrev pub matrix_usage : String → Stored T S M N → Result ℕ
    matrix_usage team st = elim m.matrices [
      | none ↦ ok 0
      | some store ↦ elim (store.list st.matrices) [
        | err e ↦ err (wrap "list matrices" e)
        | ok ms ↦ ok (count_matrices team ms)
      ]
    ]

    abbrev pub session_usage : String → List Sandbox → Stored T S M N → Result ℕ
    session_usage team sandboxes st = elim m.sessions [
      | none ↦ ok 0
      | some store ↦ elim (store.list st.sessions) [
        | err e ↦ err (wrap "list sessions" e)
        | ok ss ↦ ok (count_sessions team sandboxes ss)
      ]
    ]

    unfoldable pub get_usage : String → Stored T S M N → Result (ResourceUsage F)
    unfolding sum_sandboxes count_matrices count_sessions
    get_usage team st = elim (m.sandboxes.list st.sandboxes) [
      | err e ↦ err (wrap "list sandboxes" e)
      | ok sandboxes ↦ elim (matrix_usage team st) [
        | err e ↦ err e
        | ok matrices ↦ elim (session_usage team sandboxes st) [
          | err e ↦ err e
          | ok sessions ↦ ok (record (sum_sandboxes team sandboxes no_usage) {
            matrices = matrices;
            sessions = sessions;
          })
        ]
      ]
    ]

    unfoldable pub check_quota : String → QuotaRequest → Stored T S M N → Result (Unit {0})
    unfolding get_usage check_limits
    check_quota team request st = elim (m.teams.get team st.teams) [
      | err e ↦ err (wrap "get team" e)
      | ok t ↦ elim (get_usage team st) [
        | err e ↦ err (wrap "get usage for team" e)
        | ok u ↦ check_limits team t.quota u request
      ]
    ]
