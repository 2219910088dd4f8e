-- ===== src/Auth/Rbac/Users.antt =====
-- The users: who gets a token, and what a token proves.
use sandboxmatrix.Base.{
  String, ◌≡◌, ◌≢◌, refl, ap, ◌⊎◌, Bool-cases, none, some, [], ◌∷◌, arith, str_eq, eq_iff,
  if◌then◌else◌, Option-cases, inl, inr,
}
use sandboxmatrix.Base.Dict.{Dict, lookup, insert, lookup-insert, lookup-remove_self}
use sandboxmatrix.Base.Action.{Error, Result, quoted, ok, err, Result-cases}
use sandboxmatrix.Api.{User}
use sandboxmatrix.Auth.Rbac.{
  roles, add_user, remove_user, authorize, find_token, authorize_by_token,
}
use sandboxmatrix.Auth.Rbac.Grants.{Grants, check_permission-Grants}

-- Every user has a token and a role that the tables know.
abbrev pub IsValid : Dict User → Type 0
IsValid [] = Unit {0}
IsValid ((n, u) ∷ users) =
    (u.token ≢ "") × (lookup u.role roles ≢ none) × (u.name ≡ n) × IsValid users

insert-IsValid :
    (u : User) (users : Dict User)
    → u.token ≢ ""
    → lookup u.role roles ≢ none
    → IsValid users
    → IsValid (insert u.name u users)
unfolding insert
insert-IsValid u [] t r v = (t, r, refl, tt)
insert-IsValid u ((n, w) ∷ users) t r v = elim (Bool-cases (str_eq n u.name)) [
  | inl e ↦ rw e (t, r, refl, v.3)
  | inr d ↦ rw d (v.0, v.1, v.2, insert-IsValid u users t r v.3)
]

add_user_ok :
    (fresh : Result String) (user u : User) (users : Dict User)
    → fresh ≢ ok ""
    → (add_user fresh user users).0 ≡ ok u
    → ((add_user fresh user users).1 ≡ insert u.name u users)
      × (u.token ≢ "")
      × (lookup u.role roles ≢ none)
unfolding add_user
add_user_ok fresh user u users f h =
    (ground arith, ground (arith, eq_iff user.token ""), ground arith)

pub add_user_fails :
    (fresh : Result String) (user : User) (users : Dict User) (e : Error)
    → (add_user fresh user users).0 ≡ err e
    → (add_user fresh user users).1 ≡ users
unfolding add_user
add_user_fails fresh user users e h = ground arith

-- AddUser keeps every user with a token and a known role, for a generator that gives no empty
-- token.
pub add_user-IsValid :
    (fresh : Result String) (user : User) (users : Dict User)
    → fresh ≢ ok ""
    → IsValid users
    → IsValid (add_user fresh user users).1
add_user-IsValid fresh user users f v = elim (Result-cases (add_user fresh user users).0) [
  | inl (u, h) ↦
      let (e, t, r) = add_user_ok fresh user u users f h in rw e (insert-IsValid u users t r v)
  | inr (x, h) ↦ rw (add_user_fails fresh user users x h) v
]

-- An AddUser that succeeds returns the user with a token, stores it under its name, and changes no
-- other user; the name was free.
pub add_user_stores :
    (fresh : Result String) (user u : User) (users : Dict User) (k : String)
    → (add_user fresh user users).0 ≡ ok u
    → (lookup user.name users ≡ none)
      × (u.name ≡ user.name)
      × (u.role ≡ user.role)
      × (lookup k (add_user fresh user users).1
          ≡ (if str_eq user.name k then some u else lookup k users))
unfolding add_user
add_user_stores fresh user u users k h =
    (ground arith, ground arith, ground arith, ground (arith, lookup-insert user.name k u users))

-- Some user of the map is u.
abbrev pub Has : User → Dict User → Type 0
Has u [] = ⊥
Has u ((n, w) ∷ users) = (w ≡ u) ⊎ Has u users

find_token-Has :
    (token : String) (users : Dict User) (u : User)
    → find_token token users ≡ some u
    → (u.token ≡ token) × Has u users
unfolding find_token
find_token-Has token [] u h = cc
find_token-Has token ((n, w) ∷ users) u h = elim (Bool-cases (str_eq w.token token)) [
  | inl e ↦ (ground (arith, eq_iff w.token token), inl (ground arith))
  | inr d ↦ let (t, has) = find_token-Has token users u (ground arith) in (t, inr has)
]

find_token-none :
    (token : String) (users : Dict User) (u : User)
    → find_token token users ≡ none
    → Has u users
    → u.token ≢ token
unfolding find_token
find_token-none token [] u h has = elim has [ ]
find_token-none token ((n, w) ∷ users) u h (inl e) =
    ground (arith, eq_iff w.token token, ap (λ (x : User). x.token) e)
find_token-none token ((n, w) ∷ users) u h (inr has) =
    find_token-none token users u (ground arith) has

-- A request that a token authorizes carries the token of a user, not the empty one, under that
-- user's name, and the user's role is granted the action on the resource.
pub authorize_by_token_sound :
    (token resource action name : String) (users : Dict User)
    → authorize_by_token token resource action users ≡ (name, ok tt)
    → (token ≢ "")
      × ((u : User) × Has u users
          × (u.token ≡ token)
          × (u.name ≡ name)
          × Grants u.role resource action)
unfolding authorize_by_token
authorize_by_token_sound token resource action name users h =
    elim (Option-cases (find_token token users)) [
      | inl e ↦ absurd (ground arith)
      | inr (u, e) ↦
          let (t, has) = find_token-Has token users u e in
          (
            ground (arith, eq_iff token ""),
            (
              u,
              has,
              t,
              ground arith,
              (check_permission-Grants u.role resource action).0 (ground arith),
            ),
          )
    ]

-- If no two users have the same token, the token of a user authorizes exactly what the user's role
-- is granted, in that a granted action is authorized under the user's name.
pub authorize_by_token_complete :
    (u : User) (resource action : String) (users : Dict User)
    → Has u users
    → u.token ≢ ""
    → ((w : User) → Has w users → w.token ≡ u.token → w ≡ u)
    → Grants u.role resource action
    → authorize_by_token u.token resource action users ≡ (u.name, ok tt)
unfolding authorize_by_token
authorize_by_token_complete u resource action users has t unique g =
    elim (Option-cases (find_token u.token users)) [
      | inl e ↦ absurd (find_token-none u.token users u e has refl)
      | inr (w, e) ↦
          let (s, has') = find_token-Has u.token users w e in
          let same : w ≡ u = unique w has' s in
          ground
            (arith, eq_iff u.token "", same, (check_permission-Grants u.role resource action).1 g)
    ]

-- After RemoveUser the user is unknown: no action is authorized under the name.
pub remove_user_revokes :
    (name resource action : String) (users : Dict User)
    → (remove_user name users).0 ≡ ok tt
    → (e : Error) × (authorize name resource action (remove_user name users).1 ≡ err e)
unfolding remove_user authorize
remove_user_revokes name resource action users h =
    (quoted "user not found" name, ground (arith, lookup-remove_self name users))
