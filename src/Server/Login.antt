-- ===== src/Server/Login.antt =====
-- handleOIDCCallback of internal/server/oidc_handlers.go, with mapOIDCGroupsToRole and ensureRBACUser. The
-- provider and the JWT service are parameters; the random token of a new user is an argument.
pub mod Callback
use sandboxmatrix.Base.{
  ℕ, String, Bool, ◌||◌, not, Option, none, some, List, [], ◌∷◌, ltb, str_eq, if◌then◌else◌,
}
use sandboxmatrix.Base.Dict.{Dict, lookup}
use sandboxmatrix.Base.Action.{Result, ok, err}
use sandboxmatrix.Api.{User}
use sandboxmatrix.Auth.Rbac.{get_user, add_user, role_admin, role_operator, role_viewer}
use sandboxmatrix.Server.{UserClaims}
use sandboxmatrix.Server.OidcStates.{validate_state}

pub record OidcClaims : Type 0 where
  pub subject : String
  pub email : String
  pub name : String
  pub groups : List String

pub record OidcTokens : Type 0 where
  pub id_token : String
  pub access_token : String

-- auth.OIDCProvider and auth.JWTService, and the role mapping of the configuration.
pub record OidcHandlerConfig : Type 0 where
  pub exchange : String → Result OidcTokens
  pub verify_id_token : String → Result OidcClaims
  pub get_user_info : String → Result OidcClaims
  pub generate_access_token : UserClaims → Result String
  pub generate_refresh_token : String → Result String
  pub role_mapping : Dict String

-- The query of the callback; its description of an error only goes into a text.
pub record Query : Type 0 where
  pub state : String
  pub error : String
  pub code : String

-- The user whose tokens are sent, or a status and a text.
pub data Reply : Type 0 where
  tokens : String → String → UserClaims → Reply
  refusal : ℕ → String → Reply

unfoldable pub role_priority : String → Option ℕ
role_priority role =
    if str_eq role role_admin
    then some 3
    else if str_eq role role_operator
    then some 2
    else if str_eq role role_viewer
    then some 1
    else none

abbrev pub priority_of : Option String → Option (String × ℕ)
priority_of none = none
priority_of (some role) = elim (role_priority role) [ none ↦ none | some p ↦ some (role, p) ]

-- The loop over the groups, with bestRole and bestPriority.
unfoldable pub best_role : Dict String → List String → String → ℕ → String
unfolding role_priority
best_role mapping [] best p = best
best_role mapping (g ∷ gs) best p = elim (priority_of (lookup g mapping)) as (λ x. String) [
  | none ↦ best_role mapping gs best p
  | some (role, q) ↦ if ltb p q then best_role mapping gs role q else best_role mapping gs best p
]

unfoldable pub map_oidc_groups_to_role : List String → Dict String → String
unfolding best_role
map_oidc_groups_to_role gs [] = role_viewer
map_oidc_groups_to_role gs (m ∷ ms) = best_role (m ∷ ms) gs role_viewer 1

unfoldable pub ensure_rbac_user : Result String → String → String → Dict User → Dict User
unfolding get_user add_user
ensure_rbac_user fresh name role users = elim (get_user name users) [
  | ok u ↦ users
  | err e ↦ (add_user fresh (record { name = name; role = role; token = "" }) users).1
]

abbrev pub user_name_of : OidcClaims → String
user_name_of c =
    if str_eq c.email "" then (if str_eq c.name "" then c.subject else c.name) else c.email

abbrev pub ensure_in : Option (Dict User) → Result String → String → String → Option (Dict User)
ensure_in none fresh name role = none
ensure_in (some users) fresh name role = some (ensure_rbac_user fresh name role users)

module _ (cfg : OidcHandlerConfig) where
  abbrev pub user_claims : OidcClaims → UserClaims
  user_claims c = record {
    user_id = c.subject;
    email = c.email;
    name = c.name;
    role = map_oidc_groups_to_role c.groups cfg.role_mapping;
    teams = c.groups;
  }

  -- The claims from the ID token or, without one, from the provider.
  abbrev pub claims_of : OidcTokens → Result OidcClaims
  claims_of t =
      if str_eq t.id_token ""
      then cfg.get_user_info t.access_token
      else cfg.verify_id_token t.id_token

  abbrev claims_failure : OidcTokens → String
  claims_failure t =
      if str_eq t.id_token "" then "failed to get user info" else "failed to verify ID token"

  -- The two tokens for the user.
  abbrev pub sign_in : OidcClaims → Reply
  sign_in c = elim (cfg.generate_access_token (user_claims c)) [
    | err e ↦ refusal 500 "failed to generate access token"
    | ok access ↦ elim (cfg.generate_refresh_token c.subject) [
      | err e ↦ refusal 500 "failed to generate refresh token"
      | ok refresh ↦ tokens access refresh (user_claims c)
    ]
  ]

  -- From the code on: the reply and the users.
  unfoldable pub log_in : Result String → String → Option (Dict User) → Reply × Option (Dict User)
  unfolding ensure_rbac_user map_oidc_groups_to_role
  log_in fresh code users = elim (cfg.exchange code) [
    | err e ↦ (refusal 500 "failed to exchange authorization code", users)
    | ok t ↦ elim (claims_of t) [
      | err e ↦ (refusal 500 (claims_failure t), users)
      | ok c ↦ (
        sign_in c,
        ensure_in users fresh (user_name_of c) (map_oidc_groups_to_role c.groups cfg.role_mapping),
      )
    ]
  ]

  -- The reply, the states and the users.
  unfoldable pub handle_oidc_callback :
      Result String → ℕ → Query → Dict ℕ → Option (Dict User) → Reply × Dict ℕ × Option (Dict User)
  unfolding log_in validate_state
  handle_oidc_callback fresh now q states users =
      let checked = validate_state q.state now states in
      let logged = log_in fresh q.code users in
      if str_eq q.state ""
      then (refusal 400 "invalid or expired state parameter", states, users)
      else if not checked.0
      then (refusal 400 "invalid or expired state parameter", checked.1, users)
      else if not (str_eq q.error "")
      then (refusal 400 "oidc error", checked.1, users)
      else if str_eq q.code ""
      then (refusal 400 "missing authorization code", checked.1, users)
      else (logged.0, checked.1, logged.1)
