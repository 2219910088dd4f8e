-- ===== src/Tests/Requests.antt =====
-- Requests with the token of a user, and a login.
use sandboxmatrix.Base.{
  ℕ, ◌<◌, String, true, ◌≡◌, ◌⊎◌, ◌&&◌, ◌||◌, refl, Option, none, some, List, [], ◌∷◌, str_eq,
  if◌then◌else◌,
}
use sandboxmatrix.Base.Dict.{Dict, lookup, insert, remove}
use sandboxmatrix.Base.Action.{ok}
use sandboxmatrix.Api.{User}
use sandboxmatrix.Auth.Audit.{AuditLog, new_audit_log}
use sandboxmatrix.Auth.Rbac.{
  roles, check_permission, allows, allows_action, find_token, authorize_by_token,
}
use sandboxmatrix.Server.{
  UserClaims, Request, Env, is_public, is_oidc_public_path, map_request_to_permission, authenticate,
  with_token, auth_middleware,
}
use sandboxmatrix.Server.Login.{
  OidcClaims, OidcHandlerConfig, Query, handle_oidc_callback, log_in, ensure_rbac_user,
  map_oidc_groups_to_role, best_role, role_priority,
}
use sandboxmatrix.Server.Login.Callback.{IsUsed, callback_admits}
use sandboxmatrix.Server.Granted.{Granted, auth_middleware-Granted}
use sandboxmatrix.Server.Audited.{Audited}
use sandboxmatrix.Server.OidcStates.{
  Call, generates, clean, generate, validate_state, after, issued, validate_state-issued,
}

-- The paths and headers of the requests below.
abbrev env : Env
env = record {
  has_prefix = λ s prefix.
      str_eq s "Bearer t1" && str_eq prefix "Bearer " || str_eq s "pools" && str_eq prefix s;
  trim_prefix = λ s prefix. if str_eq s "Bearer t1" then "t1" else "pools";
  split3 = λ s sep. (s, []);
  text_of = λ x. "";
  marshal = λ x. ok "";
  now = 5;
}

abbrev users : Dict User
users = ("ann", record { name = "ann"; role = "viewer"; token = "t1" }) ∷ []

abbrev list_pools : Request
list_pools = record { method = "GET"; path = "/api/v1/pools"; authorization = "Bearer t1" }

abbrev no_claims : Option UserClaims
no_claims = none

abbrev ann_name : Option String
ann_name = some "ann"

auth_middleware-Granted_example :
    ((is_public list_pools ≡ true) × (no_claims ≡ none) × (ann_name ≡ none))
    ⊎ Granted env users none list_pools no_claims ann_name
unfolding auth_middleware is_public is_oidc_public_path authenticate with_token authorize_by_token
    find_token check_permission lookup roles allows allows_action map_request_to_permission
auth_middleware-Granted_example =
    auth_middleware-Granted env users none list_pools no_claims ann_name none refl

abbrev log : AuditLog
log = new_audit_log 10 none

abbrev calls : List Call
calls = generates (ok "s2") 3 ∷ generates (ok "s1") 1 ∷ []

validate_state-issued_example :
    ((e : ℕ) × (issued "s1" calls ≡ some e) × (4 < e))
    × (lookup "s1" (validate_state "s1" 4 (after calls)).1 ≡ none)
unfolding validate_state generate clean lookup insert remove
validate_state-issued_example = validate_state-issued "s1" 4 calls refl

abbrev carol : OidcClaims
carol = record { subject = "7"; email = "carol@x"; name = "Carol"; groups = "dev" ∷ [] }

abbrev provider : OidcHandlerConfig
provider = record {
  exchange = λ code. ok (record { id_token = ""; access_token = code });
  verify_id_token = λ t. ok carol;
  get_user_info = λ t. ok carol;
  generate_access_token = λ c. ok "a";
  generate_refresh_token = λ s. ok "r";
  role_mapping = ("dev", "operator") ∷ [];
}

-- Carol's groups make her an operator.
abbrev carol_claims : UserClaims
carol_claims = record {
  user_id = "7";
  email = "carol@x";
  name = "Carol";
  role = "operator";
  teams = "dev" ∷ [];
}

abbrev query : Query
query = record { state = "s1"; error = ""; code = "c" }

callback_admits_example :
    IsUsed provider
      (ok "t9")
      "s1"
      4
      calls
      (handle_oidc_callback provider (ok "t9") 4 query (after calls) (some users)).1
unfolding handle_oidc_callback log_in ensure_rbac_user map_oidc_groups_to_role best_role
    role_priority validate_state generate clean lookup insert remove
callback_admits_example =
    (callback_admits provider (ok "t9") 4 query calls users "a" "r" carol_claims "ann" refl).0
