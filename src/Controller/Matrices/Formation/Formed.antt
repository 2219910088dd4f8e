-- ===== src/Controller/Matrices/Formation/Formed.antt =====
-- What a CreateMatrix that succeeds has done.
use mathlib.Core.Path.{subst}
use sandboxmatrix.Base.{
  String, ◌≡◌, refl, sym, ◌∙◌, inl, inr, some, List, [], ◌∷◌, arith, str_eq, eq_iff, eq_refl,
  Bool-cases,
}
use sandboxmatrix.Base.Action.{Error, ok, err, Result-cases}
use sandboxmatrix.Api.{Sandbox, Matrix, MatrixMember, MatrixState}
use sandboxmatrix.State.{Store, StoreLaws}
use sandboxmatrix.Controller.{System, Controller}
use sandboxmatrix.Controller.Lifecycle.{name_of}
use sandboxmatrix.Controller.Matrices.{sandbox_name}
use sandboxmatrix.Controller.Matrices.Formation.{
  member_options, new_matrix, form_members, form_and_save, prepare, create_matrix,
}
use sandboxmatrix.Controller.Create.{Host}
use sandboxmatrix.Controller.Create.Run.{create}
use sandboxmatrix.Controller.Create.Succeeds.{Deployed, create_succeeds}
use sandboxmatrix.Controller.Create.Frame.{Keeps-create}

module _ {S M N W : Type 0} (c : Controller S M N W) where
  -- Every member has an active sandbox under its name.
  abbrev pub AllDeployed : String → List MatrixMember → System S M N W → Type 0
  AllDeployed name [] σ = Unit {0}
  AllDeployed name (m ∷ ms) σ =
      ((sb : Sandbox) × Deployed c (sandbox_name name m) sb σ) × AllDeployed name ms σ

module _ {S M N W B : Type 0} (c : Controller S M N W) (h : Host W B)
    (laws : StoreLaws c.store name_of) (name team : String) (all : List MatrixMember) where
  -- A sandbox that is there before the members are made is there after them.
  form_keeps :
      (k : String) (sb : Sandbox) (ms : List MatrixMember) (σ : System S M N W)
      → c.store.get k σ.sandboxes ≡ ok sb
      → (form_members c h name team all ms σ).0 ≡ ok tt
      → c.store.get k (form_members c h name team all ms σ).1.sandboxes ≡ ok sb
  unfolding form_members
  form_keeps k sb [] σ g q = g
  form_keeps k sb (m ∷ ms) σ g q =
      let n = sandbox_name name m in
      let made = create c h (member_options name team m) σ in
      elim (Result-cases made.0) [
        | inr (x, e) ↦ absurd (ground arith)
        | inl (new, e) ↦
            let ((x, gone), _, _) = create_succeeds c h laws (member_options name team m) new σ e in
            elim (Bool-cases (str_eq n k)) [
              | inl same ↦ absurd (ground (arith, eq_iff n k))
              | inr other ↦
                  let kept = Keeps-create c h laws k (member_options name team m) σ other ∙ g in
                  rw (form_members, e)
                    (form_keeps k sb ms made.1 kept (sym (rw (form_members, e) refl) ∙ q))
            ]
      ]

  form_deploys :
      (ms : List MatrixMember) (σ : System S M N W)
      → (form_members c h name team all ms σ).0 ≡ ok tt
      → AllDeployed c name ms (form_members c h name team all ms σ).1
  unfolding form_members
  form_deploys [] σ q = tt
  form_deploys (m ∷ ms) σ q =
      let n = sandbox_name name m in
      let made = create c h (member_options name team m) σ in
      elim (Result-cases made.0) [
        | inr (x, e) ↦ absurd (ground arith)
        | inl (new, e) ↦
            let (_, _, (named, active, stored)) =
              create_succeeds c h laws (member_options name team m) new σ e in
            let rest = sym (rw (form_members, e) refl) ∙ q in
            rw (form_members, e)
              (
                (new, (named, active, form_keeps n new ms made.1 stored rest)),
                form_deploys ms made.1 rest,
              )
      ]

AllDeployed-matrices :
    {S M N W : Type 0} (c : Controller S M N W) (name : String) (ms : List MatrixMember)
    (σ : System S M N W) (m : M)
    → AllDeployed c name ms σ
    → AllDeployed c name ms (record σ { matrices = m })
AllDeployed-matrices c name [] σ m h = tt
AllDeployed-matrices c name (x ∷ xs) σ m (d, h) = (d, AllDeployed-matrices c name xs σ m h)

module _ {S M N W B : Type 0} (c : Controller S M N W) (h : Host W B)
    (laws : StoreLaws c.store name_of) (st : Store M Matrix)
    (mlaws : StoreLaws st (λ mx. mx.metadata.name)) (name team : String)
    (members : List MatrixMember) where
  abbrev pub Formed : Matrix → System S M N W → Type 0
  Formed mx σ =
      (mx.members ≡ members)
      × (mx.state ≡ MatrixState.active)
      × (st.get name σ.matrices ≡ ok mx)
      × AllDeployed c name members σ

  form_and_save-Formed :
      (mx : Matrix) (σ : System S M N W)
      → (form_and_save c h st name team members σ).0 ≡ ok mx
      → Formed mx (form_and_save c h st name team members σ).1
  form_and_save-Formed mx σ q =
      let new = new_matrix name team members (c.clock σ.world) in
      let formed = form_members c h name team members members σ in
      elim (Result-cases formed.0) [
        | inr (x, e) ↦ absurd (ground arith)
        | inl (u, e) ↦ elim (Result-cases (st.save new formed.1.matrices).0) [
          | inr (x, f) ↦ absurd (ground arith)
          | inl (v, f) ↦
              let same : new ≡ mx = ground arith in
              let saved : st.get name (st.save new formed.1.matrices).1 ≡ ok new =
                ground (arith, mlaws.get-save new formed.1.matrices name f, eq_refl name) in
              let up = form_deploys c h laws name team members members σ e in
              let τ : System S M N W = record formed.1 {
                matrices = (st.save new formed.1.matrices).1;
              } in
              let out : (form_and_save c h st name team members σ).1 ≡ τ = ground arith in
              let all = AllDeployed-matrices c name members formed.1 τ.matrices up in
              subst (λ (x : Matrix). Formed x (form_and_save c h st name team members σ).1) same
                (subst (λ (s : System S M N W). Formed new s) (sym out) (refl, refl, saved, all))
        ]
      ]

  -- Over stores that keep the store laws, a CreateMatrix that succeeds found no matrix of the
  -- name, and leaves every member with a sandbox of its name that is running or ready, and the
  -- returned record, active and with the members, as what the store shows under the name.
  pub create_matrix_succeeds :
      (σ : System S M N W) (mx : Matrix)
      → c.matrices ≡ some st
      → (create_matrix c h name team members σ).0 ≡ ok mx
      → ((x : Error) × (st.get name σ.matrices ≡ err x))
        × Formed mx (create_matrix c h name team members σ).1
  unfolding create_matrix
  create_matrix_succeeds σ mx conf q =
      let ready = prepare c h name team members σ in
      elim (Result-cases (st.get name σ.matrices)) [
        | inl (old, e) ↦ absurd (ground arith)
        | inr (x, e) ↦ elim (Result-cases ready.0) [
          | inr (y, f) ↦ absurd (ground arith)
          | inl (u, f) ↦
              let after : create_matrix c h name team members σ
                  ≡ form_and_save c h st name team members ready.1 =
                ground arith in
              ((x, e), rw after (form_and_save-Formed mx ready.1 (rw after at q)))
        ]
      ]
