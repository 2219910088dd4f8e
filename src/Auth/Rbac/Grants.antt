-- ===== src/Auth/Rbac/Grants.antt =====
-- What the roles permit, described without the permission tables.
use sandboxmatrix.Base.{
  String, ◌≡◌, refl, sym, ◌≢◌, ◌↔◌, ◌⊎◌, inl, inr, Bool, true, false, ◌&&◌, ◌||◌, if◌then◌else◌,
  List, [], ◌∷◌, arith, eq_iff, str_eq, Bool-cases,
}
use sandboxmatrix.Base.Dict.{lookup}
use sandboxmatrix.Base.Action.{Error, ok, err}
use sandboxmatrix.Auth.Rbac.{
  Permission, check_permission, allows, allows_action, operator_permissions,
}

abbrev pub IsCrud : String → Type 0
IsCrud action = (action ≡ "create") ⊎ (action ≡ "read") ⊎ (action ≡ "update") ⊎ (action ≡ "delete")

-- Everything but execution on the four kinds of object, execution on two, and reading blueprints.
abbrev pub OperatorMay : String → String → Type 0
OperatorMay resource action =
    ((resource ≡ "sandbox") × (IsCrud action ⊎ (action ≡ "exec")))
    ⊎ ((resource ≡ "matrix") × IsCrud action)
    ⊎ ((resource ≡ "session") × (IsCrud action ⊎ (action ≡ "exec")))
    ⊎ ((resource ≡ "pool") × IsCrud action)
    ⊎ ((resource ≡ "blueprint") × (action ≡ "read"))

abbrev pub Grants : String → String → String → Type 0
Grants role resource action =
    (role ≡ "admin")
    ⊎ ((role ≡ "viewer") × (action ≡ "read"))
    ⊎ ((role ≡ "operator") × OperatorMay resource action)

IsCrud-allows :
    (action : String)
    → (allows_action ("create" ∷ "read" ∷ "update" ∷ "delete" ∷ []) action ≡ true) ↔ IsCrud action
unfolding allows_action
IsCrud-allows action = (
  (λ h. ground (
    arith,
    eq_iff "create" action,
    eq_iff "read" action,
    eq_iff "update" action,
    eq_iff "delete" action,
    eq_iff "exec" action,
  )),
  (λ h. ground (
    arith,
    eq_iff "create" action,
    eq_iff "read" action,
    eq_iff "update" action,
    eq_iff "delete" action,
    eq_iff "exec" action,
  )),
)

exec_allows :
    (action : String)
    → (allows_action ("create" ∷ "read" ∷ "update" ∷ "delete" ∷ "exec" ∷ []) action ≡ true)
      ↔ (IsCrud action ⊎ (action ≡ "exec"))
unfolding allows_action
exec_allows action = (
  (λ h. ground (
    arith,
    eq_iff "create" action,
    eq_iff "read" action,
    eq_iff "update" action,
    eq_iff "delete" action,
    eq_iff "exec" action,
  )),
  (λ h. ground (
    arith,
    eq_iff "create" action,
    eq_iff "read" action,
    eq_iff "update" action,
    eq_iff "delete" action,
    eq_iff "exec" action,
  )),
)

read_allows : (action : String) → (allows_action ("read" ∷ []) action ≡ true) ↔ (action ≡ "read")
unfolding allows_action
read_allows action = (
  (λ h. ground (
    arith,
    eq_iff "create" action,
    eq_iff "read" action,
    eq_iff "update" action,
    eq_iff "delete" action,
    eq_iff "exec" action,
  )),
  (λ h. ground (
    arith,
    eq_iff "create" action,
    eq_iff "read" action,
    eq_iff "update" action,
    eq_iff "delete" action,
    eq_iff "exec" action,
  )),
)

-- One row of a permission table whose resource is no wildcard.
allows_row :
    {P Q : Type 0} (r : String) (as' : List String) (ps : List Permission)
    (resource action : String)
    → str_eq r "*" ≡ false
    → (allows_action as' action ≡ true) ↔ P
    → (allows ps resource action ≡ true) ↔ Q
    → (allows (record { resource = r; actions = as' } ∷ ps) resource action ≡ true)
      ↔ (((resource ≡ r) × P) ⊎ Q)
unfolding allows
allows_row {P} {Q} r as' ps resource action w p q = (forth, back)
  where
    forth :
        allows (record { resource = r; actions = as' } ∷ ps) resource action ≡ true
        → ((resource ≡ r) × P) ⊎ Q
    forth h = elim (Bool-cases (str_eq r resource && allows_action as' action)) [
      | inl e ↦ inl (ground (arith, eq_iff r resource), p.0 (ground arith))
      | inr n ↦ inr (q.0 (ground arith))
    ]

    back :
        ((resource ≡ r) × P) ⊎ Q
        → allows (record { resource = r; actions = as' } ∷ ps) resource action ≡ true
    back (inl (e, x)) = ground (arith, eq_iff r resource, p.1 x)
    back (inr y) = ground (arith, q.1 y)

blueprint_allows :
    (resource action : String)
    → (allows (record { resource = "blueprint"; actions = "read" ∷ [] } ∷ []) resource action
        ≡ true)
      ↔ ((resource ≡ "blueprint") × (action ≡ "read"))
unfolding allows
blueprint_allows resource action =
    let row =
      allows_row "blueprint" ("read" ∷ []) [] resource action refl (read_allows action)
        (let nothing : (false ≡ true) ↔ ⊥ = ((λ e. cc), (λ x. absurd x)) in nothing) in
    ((λ h. elim (row.0 h) [ inl x ↦ x | inr x ↦ absurd x ]), (λ x. row.1 (inl x)))

operator_allows :
    (resource action : String)
    → (allows operator_permissions resource action ≡ true) ↔ OperatorMay resource action
operator_allows resource action =
    allows_row "sandbox" _ _ resource action refl (exec_allows action) (
      allows_row "matrix" _ _ resource action refl (IsCrud-allows action) (
        allows_row "session" _ _ resource action refl (exec_allows action) (
          allows_row "pool" _ _ resource action refl (IsCrud-allows action)
            (blueprint_allows resource action))))

passed : (b : Bool) (e : Error) → (if b then ok (tt {0}) else err e) ≡ ok tt → b ≡ true
passed true e h = refl
passed false e h = cc

viewer_passed : (b : Bool) → (b || false) ≡ true → b ≡ true
viewer_passed true h = refl
viewer_passed false h = cc

unknown :
    (role resource action : String)
    → str_eq "admin" role ≡ false
    → str_eq "operator" role ≡ false
    → str_eq "viewer" role ≡ false
    → check_permission role resource action ≢ ok tt
unfolding check_permission lookup
unknown role resource action na nr nv h = ground arith

-- The permission check succeeds exactly for admins, for viewers who read, and for operators who act
-- on sandboxes, sessions, matrices and pools, who execute in sandboxes and sessions, or who read
-- blueprints.
pub check_permission-Grants :
    (role resource action : String)
    → (check_permission role resource action ≡ ok tt) ↔ Grants role resource action
unfolding check_permission lookup
check_permission-Grants role resource action = (forth, back)
  where
    forth : check_permission role resource action ≡ ok tt → Grants role resource action
    forth h = elim (Bool-cases (str_eq "admin" role)) [
      | inl e ↦ inl (sym ((eq_iff "admin" role).0 e))
      | inr na ↦ elim (Bool-cases (str_eq "operator" role)) [
        | inl e ↦
            let r = (eq_iff "operator" role).0 e in
            inr (inr (sym r, (operator_allows resource action).0 (passed _ _ (rw (← r) at h))))
        | inr nr ↦ elim (Bool-cases (str_eq "viewer" role)) [
          | inl e ↦
              let r = (eq_iff "viewer" role).0 e in
              inr
                (inl (sym r, (read_allows action).0 (viewer_passed _ (passed _ _ (rw (← r) at h)))))
          | inr nv ↦ absurd (unknown role resource action na nr nv h)
        ]
      ]
    ]

    back : Grants role resource action → check_permission role resource action ≡ ok tt
    back (inl r) = rw r
    back (inr (inl (r, a))) = rw (r, a)
    back (inr (inr (r, m))) = rw r (ground (arith, (operator_allows resource action).1 m))
