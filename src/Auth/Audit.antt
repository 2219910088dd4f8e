-- ===== src/Auth/Audit.antt =====
-- internal/auth/audit.go: a log that keeps its newest entries. json.Marshal is a parameter, and the
-- optional file is the list of the lines written to it; a failing write, which the source ignores, and
-- Close are left out. Instant 0 is the zero time. A maximum or limit below 0 acts as 0 does, and is not
-- represented.
pub mod Window
use sandboxmatrix.Base.{
  ℕ, suc, ◌+◌, ◌-◌, String, Bool, ◌&&◌, ◌||◌, not, Option, none, some, List, [], ◌∷◌, ◌++◌, length,
  drop, ltb, leb, ◌==◌, str_eq, if◌then◌else◌,
}
use mathlib.Core.List.{reverse}
use sandboxmatrix.Base.Action.{Result, ok, err}
use sandboxmatrix.Api.{AuditEntry}

pub record AuditLog : Type 0 where
  pub entries : List AuditEntry
  pub max_size : ℕ
  pub file : Option (List String)

unfoldable pub new_audit_log : ℕ → Option (List String) → AuditLog
new_audit_log max_size file = record { entries = []; max_size = max_size; file = file }

abbrev pub stamped : ℕ → AuditEntry → AuditEntry
stamped now e = if e.timestamp == 0 then record e { timestamp = now } else e

abbrev pub trimmed : ℕ → List AuditEntry → List AuditEntry
trimmed max es = if ltb 0 max && ltb max (length es) then drop (length es - max) es else es

abbrev write_line : Option (List String) → Result String → Option (List String)
write_line none r = none
write_line (some lines) (ok line) = some (lines ++ line ∷ [])
write_line (some lines) (err e) = some lines

-- The name `record` is taken: this is AuditLog.Record at the time `now`.
unfoldable pub record_entry : (AuditEntry → Result String) → ℕ → AuditEntry → AuditLog → AuditLog
record_entry marshal now e log = record log {
  entries = trimmed log.max_size (log.entries ++ stamped now e ∷ []);
  file = write_line log.file (marshal (stamped now e));
}

-- The two `continue` tests of Query.
unfoldable pub matches : String → String → AuditEntry → Bool
matches user action e =
    (str_eq user "" || str_eq e.user user) && (str_eq action "" || str_eq e.action action)

-- The loop over the entries, the last one first; `found` is len(result).
unfoldable pub query_loop : String → String → ℕ → ℕ → List AuditEntry → List AuditEntry
query_loop user action limit found [] = []
query_loop user action limit found (e ∷ es) =
    let next = query_loop user action limit (suc found) es in
    let skip = query_loop user action limit found es in
    if not (matches user action e)
    then skip
    else if ltb 0 limit && leb limit (suc found)
    then e ∷ []
    else e ∷ next

unfoldable pub query : String → String → ℕ → AuditLog → List AuditEntry
unfolding query_loop matches
query user action limit log = query_loop user action limit 0 (reverse log.entries)
