-- ===== src/Tests/Access.antt =====
-- Two users and a short audit log.
use mathlib.Core.List.{reverse}
use sandboxmatrix.Base.{ℕ, String, ◌≡◌, ◌≢◌, ◌↔◌, refl, none, List, [], ◌∷◌, keep, arith, eq_iff}
use sandboxmatrix.Base.Dict.{Dict, lookup}
use sandboxmatrix.Base.Action.{Result, ok}
use sandboxmatrix.Api.{User, AuditEntry}
use sandboxmatrix.Auth.Rbac.{roles, check_permission}
use sandboxmatrix.Auth.Rbac.Grants.{Grants, check_permission-Grants}
use sandboxmatrix.Auth.Rbac.Users.{IsValid}
use sandboxmatrix.Auth.Audit.{new_audit_log, matches, query}
use sandboxmatrix.Auth.Audit.Window.{record_all, window, history, limited, query_newest}

abbrev ann : User
ann = record { name = "ann"; role = "viewer"; token = "t1" }

abbrev bob : User
bob = record { name = "bob"; role = "operator"; token = "" }

abbrev team : Dict User
team = ("ann", ann) ∷ []

check_permission_example :
    (check_permission "viewer" "pool" "read" ≡ ok tt) ↔ Grants "viewer" "pool" "read"
check_permission_example = check_permission-Grants "viewer" "pool" "read"

abbrev fresh : Result String
fresh = ok "t2"

not_empty : fresh ≢ ok ""
not_empty e = ground (arith, eq_iff "t2" "")

IsValid-team : IsValid team
unfolding lookup roles
IsValid-team = ((λ e. ground (arith, eq_iff "t1" "")), (λ e. cc), refl, tt)

abbrev entry : String → AuditEntry
entry user = record {
  timestamp = 0;
  user = user;
  action = "read";
  resource = "pool";
  result = "ok";
  detail = "";
}

abbrev marshal : AuditEntry → Result String
marshal e = ok e.user

abbrev three_calls : List (ℕ × AuditEntry)
three_calls = (1, entry "ann") ∷ (2, entry "bob") ∷ (3, entry "ann") ∷ []

query_newest_example :
    query "ann" "" 1 (record_all marshal three_calls (new_audit_log 2 none))
    ≡ limited 1 (keep (matches "ann" "") (reverse (window 2 (history three_calls))))
query_newest_example = query_newest marshal 2 none three_calls "ann" "" 1
