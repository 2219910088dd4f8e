-- ===== src/Auth/Rbac.antt =====
-- internal/auth/rbac.go. The roles are those that New sets up, and nothing changes them. A new token
-- comes from crypto/rand: it is an argument of add_user.
pub mod Grants
pub mod Users
use sandboxmatrix.Base.{
  String, Bool, true, false, ◌&&◌, ◌||◌, Option, none, some, List, [], ◌∷◌, str_eq, if◌then◌else◌,
}
use sandboxmatrix.Base.Dict.{Dict, lookup, insert, remove}
use sandboxmatrix.Base.Action.{Action, Result, Error, message, quoted, ok, err}
use sandboxmatrix.Api.{User}

pub record Permission : Type 0 where
  pub resource : String
  pub actions : List String

abbrev pub role_admin : String
role_admin = "admin"

abbrev pub role_operator : String
role_operator = "operator"

abbrev pub role_viewer : String
role_viewer = "viewer"

abbrev permission : String → List String → Permission
permission r as' = record { resource = r; actions = as' }

abbrev pub operator_permissions : List Permission
operator_permissions =
    permission "sandbox" ("create" ∷ "read" ∷ "update" ∷ "delete" ∷ "exec" ∷ [])
    ∷ permission "matrix" ("create" ∷ "read" ∷ "update" ∷ "delete" ∷ [])
    ∷ permission "session" ("create" ∷ "read" ∷ "update" ∷ "delete" ∷ "exec" ∷ [])
    ∷ permission "pool" ("create" ∷ "read" ∷ "update" ∷ "delete" ∷ [])
    ∷ permission "blueprint" ("read" ∷ [])
    ∷ []

-- r.roles
unfoldable pub roles : Dict (List Permission)
roles =
    (role_admin, permission "*" ("*" ∷ []) ∷ [])
    ∷ (role_operator, operator_permissions)
    ∷ (role_viewer, permission "*" ("read" ∷ []) ∷ [])
    ∷ []

unfoldable pub allows_action : List String → String → Bool
allows_action [] action = false
allows_action (a ∷ as') action = str_eq a "*" || str_eq a action || allows_action as' action

unfoldable pub allows : List Permission → String → String → Bool
allows [] resource action = false
allows (p ∷ ps) resource action =
    (str_eq p.resource "*" || str_eq p.resource resource) && allows_action p.actions action
    || allows ps resource action

unfoldable pub check_permission : String → String → String → Result (Unit {0})
unfolding roles allows allows_action
check_permission role resource action = elim (lookup role roles) [
  | none ↦ err (quoted "unknown role" role)
  | some perms ↦
      if allows perms resource action
      then ok tt
      else err (quoted "role does not have permission" role)
]

-- The map r.users. AddUser returns the user with its token, which it sets through the pointer.
unfoldable pub add_user : Result String → User → Action (Dict User) User
unfolding roles
add_user fresh user users =
    if str_eq user.name ""
    then (err (message "user name is required"), users)
    else elim (lookup user.name users) [
      | some u ↦ (err (quoted "user already exists" user.name), users)
      | none ↦ elim (lookup user.role roles) [
        | none ↦ (err (quoted "unknown role" user.role), users)
        | some perms ↦
            if str_eq user.token ""
            then elim fresh [
              | err e ↦ (err e, users)
              | ok token ↦ (
                ok (record user { token = token }),
                insert user.name (record user { token = token }) users,
              )
            ]
            else (ok user, insert user.name user users)
      ]
    ]

unfoldable pub remove_user : String → Action (Dict User) (Unit {0})
remove_user name users = elim (lookup name users) [
  | none ↦ (err (quoted "user not found" name), users)
  | some u ↦ (ok tt, remove name users)
]

unfoldable pub get_user : String → Dict User → Result User
get_user name users = elim (lookup name users) [
  | none ↦ err (quoted "user not found" name)
  | some u ↦ ok u
]

unfoldable pub authorize : String → String → String → Dict User → Result (Unit {0})
unfolding check_permission
authorize name resource action users = elim (lookup name users) [
  | none ↦ err (quoted "user not found" name)
  | some u ↦ check_permission u.role resource action
]

-- The first user with the token, in the order in which the map is visited.
unfoldable pub find_token : String → Dict User → Option User
find_token token [] = none
find_token token ((n, u) ∷ users) = if str_eq u.token token then some u else find_token token users

-- The name that comes back, and the error if there is one.
unfoldable pub authorize_by_token :
    String → String → String → Dict User → String × Result (Unit {0})
unfolding check_permission find_token
authorize_by_token token resource action users =
    if str_eq token ""
    then ("", err (message "token is required"))
    else elim (find_token token users) [
      | none ↦ ("", err (message "invalid token"))
      | some u ↦ (u.name, check_permission u.role resource action)
    ]
