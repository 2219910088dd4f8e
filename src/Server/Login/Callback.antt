-- ===== src/Server/Login/Callback.antt =====
-- What a callback that sends tokens has checked, and what any callback leaves of the users.
use sandboxmatrix.Base.{
  sym, ◌⊎◌, List, ℕ, ◌<◌, String, ◌≡◌, refl, Option, none, some, arith, str_eq, eq_iff, inl, inr,
  Bool-cases, Option-cases, ap, ◌∙◌,
}
use sandboxmatrix.Base.Dict.{Dict, lookup}
use sandboxmatrix.Base.Action.{Result, ok, Result-cases}
use sandboxmatrix.Api.{User}
use sandboxmatrix.Auth.Rbac.{get_user, add_user}
use sandboxmatrix.Auth.Rbac.Users.{add_user_stores, add_user_fails}
use sandboxmatrix.Server.{UserClaims}
use sandboxmatrix.Server.OidcStates.{Call, after, issued, validate_state, validate_state-issued}
use sandboxmatrix.Server.Login.{
  OidcClaims, OidcTokens, OidcHandlerConfig, Query, tokens, ensure_rbac_user,
  map_oidc_groups_to_role, user_name_of, user_claims, claims_of, log_in, handle_oidc_callback,
}

-- Every user of the first map stands unchanged in the second.
abbrev pub AreKept : Dict User → Dict User → Type 0
AreKept users users' = (k : String) (u : User) → lookup k users ≡ some u → lookup k users' ≡ some u

ensure_rbac_user-AreKept :
    (fresh : Result String) (name role : String) (users : Dict User)
    → AreKept users (ensure_rbac_user fresh name role users)
unfolding ensure_rbac_user get_user
ensure_rbac_user-AreKept fresh name role users k u h =
    let user : User = record { name = name; role = role; token = "" } in
    elim (Option-cases (lookup name users)) [
      | inr (w, q) ↦ rw (ensure_rbac_user, get_user, q) h
      | inl q ↦ elim (Result-cases (add_user fresh user users).0) [
        | inr (x, a) ↦ ground (arith, add_user_fails fresh user users x a)
        | inl (w, a) ↦
            let (free, n, r, shown) = add_user_stores fresh user w users k a in
            ground (arith, eq_iff name k, shown)
      ]
    ]

module _ (cfg : OidcHandlerConfig) (fresh : Result String) where
  log_in-AreKept :
      (code : String) (users : Dict User)
      → (users' : Dict User) × ((log_in cfg fresh code (some users)).1 ≡ some users')
        × AreKept users users'
  unfolding log_in
  log_in-AreKept code users = elim (Result-cases (cfg.exchange code)) [
    | inr (x, q) ↦ (users, rw (log_in, q) refl, λ k u h. h)
    | inl (t, q) ↦ elim (Result-cases (claims_of cfg t)) [
      | inr (x, r) ↦ (users, rw (log_in, q, r) refl, λ k u h. h)
      | inl (c, r) ↦
          let role = map_oidc_groups_to_role c.groups cfg.role_mapping in
          (
            ensure_rbac_user fresh (user_name_of c) role users,
            rw (log_in, q, r) refl,
            ensure_rbac_user-AreKept fresh (user_name_of c) role users,
          )
    ]
  ]

  -- The claims come from the provider, for the code, and the tokens are those that the JWT service
  -- gives for these claims and their subject.
  abbrev pub AreFrom : String → String → String → UserClaims → Type 0
  AreFrom code a r claims =
      (t : OidcTokens) × (c : OidcClaims) × (cfg.exchange code ≡ ok t)
      × (claims_of cfg t ≡ ok c)
      × (claims ≡ user_claims cfg c)
      × (cfg.generate_access_token (user_claims cfg c) ≡ ok a)
      × (cfg.generate_refresh_token c.subject ≡ ok r)

  log_in-AreFrom :
      (code a r : String) (claims : UserClaims) (users : Option (Dict User))
      → (log_in cfg fresh code users).0 ≡ tokens a r claims
      → AreFrom code a r claims
  unfolding log_in
  log_in-AreFrom code a r claims users h = elim (Result-cases (cfg.exchange code)) [
    | inr (x, q) ↦ absurd (ground arith)
    | inl (t, q) ↦ elim (Result-cases (claims_of cfg t)) [
      | inr (x, s) ↦ absurd (ground arith)
      | inl (c, s) ↦ elim (Result-cases (cfg.generate_access_token (user_claims cfg c))) [
        | inr (x, v) ↦ absurd (ground arith)
        | inl (a', v) ↦ elim (Result-cases (cfg.generate_refresh_token c.subject)) [
          | inr (x, w) ↦ absurd (ground arith)
          | inl (r', w) ↦ (t, c, q, s, ground arith, ground arith, ground arith)
        ]
      ]
    ]
  ]

  -- The state was issued less than ten minutes before, and is used up.
  abbrev pub IsUsed : String → ℕ → List Call → Dict ℕ → Type 0
  IsUsed s now calls states =
      ((e : ℕ) × (issued s calls ≡ some e) × (now < e)) × (lookup s states ≡ none)

  callback-AreKept :
      (now : ℕ) (q : Query) (states : Dict ℕ) (users : Dict User)
      → (users' : Dict User) × ((handle_oidc_callback cfg fresh now q states (some users)).2
          ≡ some users')
        × AreKept users users'
  unfolding handle_oidc_callback
  callback-AreKept now q states users = elim (Bool-cases (str_eq q.state "")) [
    | inl a ↦ (users, rw a refl, λ k u h. h)
    | inr a ↦ elim (Bool-cases (validate_state q.state now states).0) [
      | inr b ↦ (users, rw (a, b) refl, λ k u h. h)
      | inl b ↦ elim (Bool-cases (str_eq q.error "")) [
        | inr d ↦ (users, rw (a, b, d) refl, λ k u h. h)
        | inl d ↦ elim (Bool-cases (str_eq q.code "")) [
          | inl g ↦ (users, rw (a, b, d, g) refl, λ k u h. h)
          | inr g ↦
              let (users', e, kept) = log_in-AreKept q.code users in
              (users', rw (a, b, d, g) e, kept)
        ]
      ]
    ]
  ]

  callback-IsUsed :
      (now : ℕ) (q : Query) (calls : List Call) (users : Option (Dict User)) (a r : String)
      (claims : UserClaims)
      → (handle_oidc_callback cfg fresh now q (after calls) users).0 ≡ tokens a r claims
      → IsUsed q.state now calls (handle_oidc_callback cfg fresh now q (after calls) users).1
        × AreFrom q.code a r claims
  unfolding handle_oidc_callback
  callback-IsUsed now q calls users a r claims h =
      let checked = validate_state q.state now (after calls) in
      elim (Bool-cases checked.0) [
        | inr b ↦ absurd (ground arith)
        | inl b ↦
            let (old, gone) = validate_state-issued q.state now calls b in
            let logged = log_in cfg fresh q.code users in
            let reply : logged.0 ≡ tokens a r claims = ground arith in
            let states : (handle_oidc_callback cfg fresh now q (after calls) users).1 ≡ checked.1 =
              ground arith in
            (
              (old, ap (λ d. lookup q.state d) states ∙ gone),
              log_in-AreFrom q.code a r claims users reply,
            )
      ]

  -- With RBAC configured and after any calls of generate and validate, a callback that sends
  -- tokens brings a state that was generated less than ten minutes before and not validated
  -- since, and uses it up; the tokens are those that the JWT service gives for the claims that
  -- the provider has for the code, with the role of their groups, and for their subject; and what
  -- RBAC holds under any name that it knew is unchanged.
  pub callback_admits :
      (now : ℕ) (q : Query) (calls : List Call) (users : Dict User) (a r : String)
      (claims : UserClaims) (k : String)
      → (handle_oidc_callback cfg fresh now q (after calls) (some users)).0 ≡ tokens a r claims
      → IsUsed q.state now calls (handle_oidc_callback cfg fresh now q (after calls) (some users)).1
        × AreFrom q.code a r claims
        × ((users' : Dict User) × ((handle_oidc_callback cfg fresh now q
                (after calls)
                (some users)).2
              ≡ some users')
            × ((lookup k users ≡ none) ⊎ (lookup k users' ≡ lookup k users)))
  callback_admits now q calls users a r claims k h =
      let (used, source) = callback-IsUsed now q calls (some users) a r claims h in
      let (users', e, kept) = callback-AreKept now q (after calls) users in
      (
        used,
        source,
        (
          users',
          e,
          elim (Option-cases (lookup k users)) [
            | inl absent ↦ inl absent
            | inr (u, old) ↦ inr (kept k u old ∙ sym old)
          ],
        ),
      )
