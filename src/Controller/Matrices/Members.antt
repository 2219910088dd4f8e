-- ===== src/Controller/Matrices/Members.antt =====
-- What the operations on a matrix do to its members.
use sandboxmatrix.Base.{
  ℕ, ap, String, ◌≡◌, refl, sym, ◌∙◌, ◌≢◌, true, Option, none, some, List, [], ◌∷◌, arith, str_eq,
  eq_refl, if◌then◌else◌, inl, inr, Bool-cases,
}
use sandboxmatrix.Base.Action.{Action, Error, ok, Result-cases}
use sandboxmatrix.Api.{stopped, Matrix, MatrixMember, MatrixState}
use sandboxmatrix.State.{Store, StoreLaws}
use sandboxmatrix.Controller.{System, Controller, stop, perform, stops}
use sandboxmatrix.Controller.Lifecycle.{name_of, IsKeyed, stop_succeeds}
use sandboxmatrix.Controller.Lifecycle.States.{state_of, perform_refines}
use sandboxmatrix.Controller.Matrices.{
  is_running, sandbox_name, with_state_at, each_member, stop_matrix,
}

some-none : {A : Type 0} {a : A} → some a ≢ none
some-none h = cc

module _ {S M N W : Type 0} where
  each_member-some :
      (op : String → Action (System S M N W) (Unit {0})) (text name : String)
      (ms : List MatrixMember) (e : Error) (σ : System S M N W)
      → (each_member op text name ms (some e) σ).0 ≡ some e
  unfolding each_member
  each_member-some op text name [] e σ = refl
  each_member-some op text name (m ∷ ms) e σ =
      each_member-some op text name ms e (op (sandbox_name name m) σ).1

  -- A loop that reports no error met none at its first member.
  pub each_member-none :
      (op : String → Action (System S M N W) (Unit {0})) (text name : String) (m : MatrixMember)
      (ms : List MatrixMember) (σ : System S M N W)
      → (each_member op text name (m ∷ ms) none σ).0 ≡ none
      → ((op (sandbox_name name m) σ).0 ≡ ok tt)
        × (each_member op text name (m ∷ ms) none σ
            ≡ each_member op text name ms none (op (sandbox_name name m) σ).1)
  unfolding each_member
  each_member-none op text name m ms σ h = elim (Result-cases (op (sandbox_name name m) σ).0) [
    | inl (u, e) ↦ (e, rw e refl)
    | inr (x, e) ↦
        let broken : (each_member op text name (m ∷ ms) none σ).0 ≢ none =
          rw (each_member, e)
            (λ q. absurd (
              some-none
                (sym (each_member-some op text name ms _ (op (sandbox_name name m) σ).1) ∙ q))) in
        absurd (broken h)
  ]

module _ {S M N W : Type 0} (c : Controller S M N W) where
  abbrev pub IsStopped : String → System S M N W → Type 0
  IsStopped k σ = state_of c k σ ≡ some stopped

  -- The sandboxes of the members are stopped.
  abbrev pub AllStopped : String → List MatrixMember → System S M N W → Type 0
  AllStopped name [] σ = Unit {0}
  AllStopped name (m ∷ ms) σ = IsStopped (sandbox_name name m) σ × AllStopped name ms σ

  AllStopped-matrices :
      (name : String) (ms : List MatrixMember) (σ : System S M N W) (m : M)
      → AllStopped name ms σ
      → AllStopped name ms (record σ { matrices = m })
  AllStopped-matrices name [] σ m h = tt
  AllStopped-matrices name (x ∷ xs) σ m h = (h.0, AllStopped-matrices name xs σ m h.1)

module _ {S M N W : Type 0} (c : Controller S M N W) (laws : StoreLaws c.store name_of) where
  -- After a Stop that succeeds, its sandbox is stopped, and those that were stopped still are.
  stop_stops :
      (name k : String) (σ : System S M N W)
      → IsKeyed c σ
      → (stop c name σ).0 ≡ ok tt
      → IsStopped c name (stop c name σ).1 × (IsStopped c k σ → IsStopped c k (stop c name σ).1)
  stop_stops name k σ keyed h =
      let (sb, t, e, a, put) = stop_succeeds c laws name σ keyed h in
      (
        rw (put name, eq_refl name) refl,
        λ s. elim (Bool-cases (str_eq name k)) [
          | inl same ↦ rw (put k, same) refl
          | inr other ↦ rw (put k, other) s
        ],
      )

  stop_matrices : (name : String) (σ : System S M N W) → (stop c name σ).1.matrices ≡ σ.matrices
  unfolding stop
  stop_matrices name σ = elim (Result-cases (c.store.get name σ.sandboxes)) [
    | inl (sb, e) ↦ ground arith
    | inr (x, e) ↦ ground arith
  ]

  pub stop_members_matrices :
      (name : String) (ms : List MatrixMember) (first : Option Error) (σ : System S M N W)
      → (each_member (stop c) "stop member " name ms first σ).1.matrices ≡ σ.matrices
  unfolding each_member
  stop_members_matrices name [] first σ = refl
  stop_members_matrices name (m ∷ ms) first σ =
      stop_members_matrices name ms _ (stop c (sandbox_name name m) σ).1
      ∙ stop_matrices (sandbox_name name m) σ

  stop_members :
      (name : String) (ms : List MatrixMember) (σ : System S M N W)
      → IsKeyed c σ
      → (each_member (stop c) "stop member " name ms none σ).0 ≡ none
      → AllStopped c name ms (each_member (stop c) "stop member " name ms none σ).1
        × ((k : String)
            → IsStopped c k σ
            → IsStopped c k (each_member (stop c) "stop member " name ms none σ).1)
  unfolding each_member perform
  stop_members name [] σ keyed h = (tt, λ k s. s)
  stop_members name (m ∷ ms) σ keyed h =
      let (done, rest) = each_member-none (stop c) "stop member " name m ms σ h in
      let σ1 = (stop c (sandbox_name name m) σ).1 in
      let keyed1 : IsKeyed c σ1 =
        (perform_refines c laws (stops (sandbox_name name m)) σ keyed).1 in
      let (all, kept) = stop_members name ms σ1 keyed1 (rw rest at h) in
      rw rest (
        (kept (sandbox_name name m) (stop_stops (sandbox_name name m) "" σ keyed done).0, all),
        λ k s. kept k ((stop_stops (sandbox_name name m) k σ keyed done).1 s),
      )

  -- Over stores that keep the store laws, a StopMatrix that succeeds found the matrix active, and
  -- leaves every member's sandbox stopped and the record of the matrix in the state Stopped,
  -- every other matrix being as it was; for sandboxes and the matrix stored under their own
  -- names.
  pub stop_matrix_succeeds :
      (st : Store M Matrix) (mlaws : StoreLaws st (λ mx. mx.metadata.name)) (name : String)
      (σ : System S M N W)
      → c.matrices ≡ some st
      → IsKeyed c σ
      → ((mx : Matrix) → st.get name σ.matrices ≡ ok mx → mx.metadata.name ≡ name)
      → (stop_matrix c name σ).0 ≡ ok tt
      → let σ' = (stop_matrix c name σ).1 in
        (mx : Matrix) × (t : ℕ) × (st.get name σ.matrices ≡ ok mx)
        × (is_running mx.state ≡ true)
        × AllStopped c name mx.members σ'
        × ((k : String)
            → st.get k σ'.matrices ≡ (
                if str_eq name k
                then ok (with_state_at mx MatrixState.stopped t)
                else st.get k σ.matrices))
  unfolding stop_matrix
  stop_matrix_succeeds st mlaws name σ conf keyed named h =
      elim (Result-cases (st.get name σ.matrices)) [
        | inl (mx, e) ↦
            let loop = each_member (stop c) "stop member " name mx.members none σ in
            let quiet : loop.0 ≡ none = ground arith in
            let t = c.clock loop.1.world in
            let new = with_state_at mx MatrixState.stopped t in
            let same : loop.1.matrices ≡ σ.matrices =
              stop_members_matrices name mx.members none σ in
            let after : (stop_matrix c name σ).1
                ≡ record loop.1 { matrices = (st.save new loop.1.matrices).1 } =
              ground arith in
            (
              mx,
              t,
              e,
              ground arith,
              rw after (
                  AllStopped-matrices c name mx.members loop.1 _
                    (stop_members name mx.members σ keyed quiet).0),
              λ k.
                  ground
                    (arith, mlaws.get-save new loop.1.matrices k, named mx e, ap (st.get k) same),
            )
        | inr (x, e) ↦ absurd (ground arith)
      ]
