-- ===== src/Server/Granted.antt =====
-- The requests that the middleware passes on, and what it leaves in the audit log.
use sandboxmatrix.Base.{
  String, ◌≡◌, ◌≢◌, ◌⊎◌, refl, true, Option, none, some, arith, str_eq, eq_iff, inl, inr,
  Bool-cases, Option-cases,
}
use sandboxmatrix.Base.Dict.{Dict, lookup}
use sandboxmatrix.Base.Action.{Result, ok, Result-cases}
use sandboxmatrix.Api.{User}
use sandboxmatrix.Auth.Audit.{AuditLog}
use sandboxmatrix.Auth.Rbac.{authorize, authorize_by_token}
use sandboxmatrix.Auth.Rbac.Grants.{Grants, check_permission-Grants}
use sandboxmatrix.Auth.Rbac.Users.{Has, authorize_by_token_sound}
use sandboxmatrix.Server.{
  UserClaims, Request, Outcome, Env, is_public, user_name_of, map_request_to_permission,
  with_claims, with_token, validated, token_of, authenticate, auth_middleware,
}

authorize-Grants :
    (name resource action : String) (users : Dict User)
    → authorize name resource action users ≡ ok tt
    → (u : User) × (lookup name users ≡ some u) × Grants u.role resource action
unfolding authorize
authorize-Grants name resource action users h = elim (Option-cases (lookup name users)) [
  | inl q ↦ absurd (ground arith)
  | inr (u, q) ↦ (u, q, (check_permission-Grants u.role resource action).0 (ground arith))
]

module _ (e : Env) (users : Dict User) (jwt : Option (String → Result UserClaims))
    (r : Request) where
  abbrev pub MayUse : User → Type 0
  MayUse u = let p = map_request_to_permission e r.method r.path in Grants u.role p.0 p.1

  -- The token is a valid JWT, and names a user who may.
  abbrev pub ByClaims : Option UserClaims → String → Type 0
  ByClaims claims name =
      (c : UserClaims) × (validated e jwt (token_of e r) ≡ some c)
      × (claims ≡ some c)
      × (name ≡ user_name_of c)
      × ((u : User) × (lookup name users ≡ some u) × MayUse u)

  -- The token is no valid JWT, but that of a user who may.
  abbrev pub ByToken : Option UserClaims → String → Type 0
  ByToken claims name =
      (validated e jwt (token_of e r) ≡ none)
      × (claims ≡ none)
      × ((u : User) × Has u users × (u.token ≡ token_of e r) × (u.name ≡ name) × MayUse u)

  abbrev pub Granted : Option UserClaims → Option String → Type 0
  Granted claims user =
      (name : String) × (user ≡ some name)
      × (token_of e r ≢ "")
      × (ByClaims claims name ⊎ ByToken claims name)

  with_claims_passes :
      (c : UserClaims) (claims : Option UserClaims) (user : Option String) (log : Option AuditLog)
      → (with_claims e users r c log).0 ≡ Outcome.passed claims user
      → (user ≡ some (user_name_of c))
        × (claims ≡ some c)
        × ((u : User) × (lookup (user_name_of c) users ≡ some u) × MayUse u)
  unfolding with_claims
  with_claims_passes c claims user log h =
      let p = map_request_to_permission e r.method r.path in
      elim (Result-cases (authorize (user_name_of c) p.0 p.1 users)) [
        | inr (x, q) ↦ absurd (ground arith)
        | inl (u, q) ↦
            (ground arith, ground arith, authorize-Grants (user_name_of c) p.0 p.1 users q)
      ]

  with_token_passes :
      (token : String) (claims : Option UserClaims) (user : Option String) (log : Option AuditLog)
      → (with_token e users r token log).0 ≡ Outcome.passed claims user
      → (name : String) × (user ≡ some name)
        × (claims ≡ none)
        × ((u : User) × Has u users × (u.token ≡ token) × (u.name ≡ name) × MayUse u)
  unfolding with_token
  with_token_passes token claims user log h =
      let p = map_request_to_permission e r.method r.path in
      let found = authorize_by_token token p.0 p.1 users in
      elim (Result-cases found.1) [
        | inr (x, q) ↦ elim (Bool-cases (str_eq found.0 "")) [
          | inl b ↦ absurd (ground arith)
          | inr b ↦ absurd (ground arith)
        ]
        | inl (u, q) ↦
            let same : found ≡ (found.0, ok tt) = rw q refl in
            (
              found.0,
              ground arith,
              ground arith,
              (authorize_by_token_sound token p.0 p.1 found.0 users same).1,
            )
      ]

  authenticate-Granted :
      (claims : Option UserClaims) (user : Option String) (log : Option AuditLog)
      → (authenticate e users jwt r log).0 ≡ Outcome.passed claims user
      → Granted claims user
  unfolding authenticate
  authenticate-Granted claims user log h = elim (Bool-cases (str_eq r.authorization "")) [
    | inl a ↦ absurd (ground arith)
    | inr a ↦ elim (Bool-cases (e.has_prefix r.authorization "Bearer ")) [
      | inr b ↦ absurd (ground arith)
      | inl b ↦ elim (Bool-cases (str_eq (token_of e r) "")) [
        | inl t ↦ absurd (ground arith)
        | inr t ↦ elim (Option-cases (validated e jwt (token_of e r))) [
          | inr (c, v) ↦
              let (n, k, g) = with_claims_passes c claims user log (ground arith) in
              (user_name_of c, n, ground (arith, eq_iff (token_of e r) ""), inl (c, v, k, refl, g))
          | inl v ↦
              let (name, n, k, g) =
                with_token_passes (token_of e r) claims user log (ground arith) in
              (name, n, ground (arith, eq_iff (token_of e r) ""), inr (v, k, g))
        ]
      ]
    ]
  ]

  -- With RBAC configured, a request that AuthMiddleware passes on is public, or carries a token
  -- that is not empty and that is either a valid JWT, under whose name a user stands, or else the
  -- token of a user; the role of that user is granted what the request asks for, and the name in
  -- its context is that one.
  pub auth_middleware-Granted :
      (claims : Option UserClaims) (user : Option String) (log : Option AuditLog)
      → (auth_middleware e (some users) jwt r log).0 ≡ Outcome.passed claims user
      → ((is_public r ≡ true) × (claims ≡ none) × (user ≡ none)) ⊎ Granted claims user
  unfolding auth_middleware
  auth_middleware-Granted claims user log h = elim (Bool-cases (is_public r)) [
    | inl p ↦ inl (p, ground arith, ground arith)
    | inr p ↦ inr (authenticate-Granted claims user log (rw p at h))
  ]
