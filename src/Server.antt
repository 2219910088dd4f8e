-- ===== src/Server.antt =====
-- internal/server: which requests reach a handler (auth_middleware.go), and the state parameters of an
-- OIDC login (oidc_handlers.go). What Go's strings, the JWT service and json.Marshal do are parameters.
pub mod Granted
pub mod Audited
pub mod OidcStates
pub mod Login
use sandboxmatrix.Base.{
  ℕ, String, Bool, true, ◌||◌, not, Option, none, some, List, [], ◌∷◌, str_eq, if◌then◌else◌,
}
use Prim.Native.String.{◌++◌ as str_append}
use sandboxmatrix.Base.Dict.{Dict}
use sandboxmatrix.Base.Action.{Error, Result, ok, err}
use sandboxmatrix.Api.{User, AuditEntry}
use sandboxmatrix.Auth.Audit.{AuditLog, record_entry}
use sandboxmatrix.Auth.Rbac.{authorize, authorize_by_token}

-- auth.UserClaims
pub record UserClaims : Type 0 where
  pub user_id : String
  pub email : String
  pub name : String
  pub role : String
  pub teams : List String

-- What the middleware reads of a request.
pub record Request : Type 0 where
  pub method : String
  pub path : String
  pub authorization : String

-- A request is passed on, with what its context holds, or answered with a status and a text.
pub data Outcome : Type 0 where
  passed : Option UserClaims → Option String → Outcome
  refused : ℕ → String → Outcome

-- strings.HasPrefix and TrimPrefix; strings.SplitN(s, sep, 3), whose first part always exists; the text
-- of an error, json.Marshal, and the time.
pub record Env : Type 0 where
  pub has_prefix : String → String → Bool
  pub trim_prefix : String → String → String
  pub split3 : String → String → String × List String
  pub text_of : Error → String
  pub marshal : AuditEntry → Result String
  pub now : ℕ

unfoldable pub is_oidc_public_path : String → Bool
is_oidc_public_path path =
    str_eq path "/api/v1/auth/oidc/login"
    || str_eq path "/api/v1/auth/oidc/callback"
    || str_eq path "/api/v1/auth/token/refresh"

-- The requests that pass without a token.
unfoldable pub is_public : Request → Bool
unfolding is_oidc_public_path
is_public r =
    (str_eq r.path "/api/v1/health" || str_eq r.path "/api/v1/version")
    || is_oidc_public_path r.path
    || str_eq r.method "OPTIONS"

-- parts[2], if there is one
abbrev third : List String → Option String
third [] = none
third (a ∷ []) = none
third (a ∷ b ∷ rest) = some b

abbrev sub_action : Option String → String
sub_action none = "create"
sub_action (some sub) =
    if str_eq sub "exec"
    then "exec"
    else if str_eq sub "start" || str_eq sub "stop" || str_eq sub "end"
    then "update"
    else "create"

abbrev is_exec : Option String → Bool
is_exec none = Bool.false
is_exec (some sub) = str_eq sub "exec"

abbrev pub action_of : String → Option String → String
action_of method sub =
    if str_eq method "GET"
    then (if is_exec sub then "exec" else "read")
    else if str_eq method "POST"
    then sub_action sub
    else if str_eq method "PUT" || str_eq method "PATCH"
    then "update"
    else if str_eq method "DELETE"
    then "delete"
    else "read"

abbrev pub user_name_of : UserClaims → String
user_name_of c =
    if str_eq c.email "" then (if str_eq c.name "" then c.user_id else c.name) else c.email

module _ (e : Env) where
  abbrev pub resource_of : String → String → String
  resource_of trimmed first =
      if e.has_prefix trimmed "sandboxes"
      then "sandbox"
      else if e.has_prefix trimmed "matrices"
      then "matrix"
      else if e.has_prefix trimmed "sessions"
      then "session"
      else if e.has_prefix trimmed "pools"
      then "pool"
      else if e.has_prefix trimmed "blueprints"
      then "blueprint"
      else if e.has_prefix trimmed "teams"
      then "team"
      else if e.has_prefix trimmed "auth"
      then "user"
      else first

  -- The resource and the action.
  unfoldable pub map_request_to_permission : String → String → String × String
  map_request_to_permission method path =
      let trimmed = e.trim_prefix path "/api/v1/" in
      let parts = e.split3 trimmed "/" in
      (resource_of trimmed parts.0, action_of method (third parts.1))

  -- parts[1], if it is there and not empty, names the resource further.
  abbrev resource_path : String → List String → String
  resource_path resource [] = resource
  resource_path resource (p ∷ ps) =
      if str_eq p "" then resource else str_append resource (str_append "/" p)

  abbrev pub audit_entry : Request → String → String → String → AuditEntry
  audit_entry r user result detail =
      let (resource, action) = map_request_to_permission r.method r.path in
      record {
        timestamp = e.now;
        user = user;
        action = str_append resource (str_append "." action);
        resource = resource_path resource (e.split3 (e.trim_prefix r.path "/api/v1/") "/").1;
        result = result;
        detail = detail;
      }

  unfoldable pub record_audit :
      Request → String → String → String → Option AuditLog → Option AuditLog
  unfolding map_request_to_permission
  record_audit r user result detail none = none
  record_audit r user result detail (some log) =
      some (record_entry e.marshal e.now (audit_entry r user result detail) log)

  abbrev pub denied :
      Request → String → String → ℕ → String → Option AuditLog → Outcome × Option AuditLog
  denied r user detail status text log =
      (Outcome.refused status text, record_audit r user "denied" detail log)

  abbrev pub admitted :
      Request → Option UserClaims → String → Option AuditLog → Outcome × Option AuditLog
  admitted r claims user log =
      (Outcome.passed claims (some user), record_audit r user "success" "" log)

  -- A JWT that is valid decides alone.
  unfoldable pub with_claims :
      Dict User → Request → UserClaims → Option AuditLog → Outcome × Option AuditLog
  with_claims users r claims log =
      let user = user_name_of claims in
      let p = map_request_to_permission r.method r.path in
      elim (authorize user p.0 p.1 users) [
        | err x ↦ denied r user (e.text_of x) 403 (e.text_of x) log
        | ok u ↦ admitted r (some claims) user log
      ]

  -- The token of a user.
  unfoldable pub with_token :
      Dict User → Request → String → Option AuditLog → Outcome × Option AuditLog
  with_token users r token log =
      let p = map_request_to_permission r.method r.path in
      let found = authorize_by_token token p.0 p.1 users in
      elim found.1 [
        | ok u ↦ admitted r none found.0 log
        | err x ↦
            if str_eq found.0 ""
            then denied r "" (e.text_of x) 401 "invalid token" log
            else denied r found.0 (e.text_of x) 403 (e.text_of x) log
      ]

  abbrev pub validated : Option (String → Result UserClaims) → String → Option UserClaims
  validated none token = none
  validated (some validate) token = elim (validate token) [ ok c ↦ some c | err x ↦ none ]

  abbrev pub token_of : Request → String
  token_of r = e.trim_prefix r.authorization "Bearer "

  -- From the header on.
  unfoldable pub authenticate :
      Dict User
      → Option (String → Result UserClaims)
      → Request
      → Option AuditLog
      → Outcome × Option AuditLog
  unfolding with_claims with_token
  authenticate users jwt r log =
      if str_eq r.authorization ""
      then denied r "" "missing Authorization header" 401 "missing Authorization header" log
      else if not (e.has_prefix r.authorization "Bearer ")
      then denied r "" "invalid Authorization format" 401
          "invalid Authorization header format, expected 'Bearer <token>'" log
      else if str_eq (token_of r) ""
      then denied r "" "empty token" 401 "empty token" log
      else elim (validated jwt (token_of r)) [
        | some claims ↦ with_claims users r claims log
        | none ↦ with_token users r (token_of r) log
      ]

  -- AuthMiddleware, with the users of RBAC if it is configured.
  unfoldable pub auth_middleware :
      Option (Dict User)
      → Option (String → Result UserClaims)
      → Request
      → Option AuditLog
      → Outcome × Option AuditLog
  unfolding is_public authenticate
  auth_middleware none jwt r log = (Outcome.passed none none, log)
  auth_middleware (some users) jwt r log =
      if is_public r then (Outcome.passed none none, log) else authenticate users jwt r log
