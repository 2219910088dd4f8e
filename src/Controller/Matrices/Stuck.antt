-- ===== src/Controller/Matrices/Stuck.antt =====
-- StopMatrix when a member is not running: it goes on with the others and then reports an error.
use mathlib.Core.Logic.{◌⊎◌, inl, inr}
use sandboxmatrix.Base.{
  String, ◌≡◌, refl, ◌≢◌, Bool, false, Option, none, some, List, [], ◌∷◌, arith, str_eq, eq_iff, ap,
  ◌∙◌, Bool-cases, Option-cases,
}
use sandboxmatrix.Base.Action.{Error, Result, ok, err, Result-cases}
use sandboxmatrix.Api.{Sandbox, Matrix, MatrixMember}
use sandboxmatrix.State.{Store, StoreLaws}
use sandboxmatrix.Controller.{System, Controller, is_active, stop, perform, stops}
use sandboxmatrix.Controller.Lifecycle.{name_of, IsKeyed, stop_succeeds, perform_fails}
use sandboxmatrix.Controller.Lifecycle.States.{perform_refines}
use sandboxmatrix.Controller.Matrices.{is_running, sandbox_name, each_member, stop_matrix}
use sandboxmatrix.Controller.Matrices.Members.{each_member-none, stop_members_matrices}

abbrev pub found_active : Result Sandbox → Bool
found_active (ok sb) = is_active sb.status.state
found_active (err e) = false

-- Some member has the sandbox.
abbrev pub HasSandbox : String → List MatrixMember → String → Type 0
HasSandbox name [] k = ⊥
HasSandbox name (m ∷ ms) k = (sandbox_name name m ≡ k) ⊎ HasSandbox name ms k

module _ {S M N W : Type 0} (c : Controller S M N W) where
  -- No sandbox of the name is running or ready.
  abbrev pub IsIdle : String → System S M N W → Type 0
  IsIdle k σ = found_active (c.store.get k σ.sandboxes) ≡ false

module _ {S M N W : Type 0} (c : Controller S M N W) (laws : StoreLaws c.store name_of) where
  IsIdle-stop :
      (name k : String) (σ : System S M N W)
      → IsKeyed c σ
      → (stop c name σ).0 ≡ ok tt
      → IsIdle c k σ
      → (name ≢ k) × IsIdle c k (stop c name σ).1
  IsIdle-stop name k σ keyed h idle =
      let (sb, t, e, a, put) = stop_succeeds c laws name σ keyed h in
      let other : str_eq name k ≡ false = ground (arith, eq_iff name k, e, a) in
      ((λ q. ground (arith, eq_iff name k)), rw (put k, other) idle)

  IsIdle-members :
      (name k : String) (ms : List MatrixMember) (σ : System S M N W)
      → IsKeyed c σ
      → HasSandbox name ms k
      → IsIdle c k σ
      → (each_member (stop c) "stop member " name ms none σ).0 ≢ none
  unfolding perform
  IsIdle-members name k [] σ keyed has idle h = elim has [ ]
  IsIdle-members name k (m ∷ ms) σ keyed has idle h =
      let (done, rest) = each_member-none (stop c) "stop member " name m ms σ h in
      let (ne, idle1) = IsIdle-stop (sandbox_name name m) k σ keyed done idle in
      let keyed1 : IsKeyed c (stop c (sandbox_name name m) σ).1 =
        (perform_refines c laws (stops (sandbox_name name m)) σ keyed).1 in
      elim has [
        | inl e ↦ absurd (ne e)
        | inr i ↦
            IsIdle-members name k ms (stop c (sandbox_name name m) σ).1 keyed1 i idle1
              (rw rest at h)
      ]

  IsIdle-step :
      (name k : String) (σ : System S M N W)
      → IsKeyed c σ
      → IsIdle c k σ
      → IsKeyed c (stop c name σ).1 × IsIdle c k (stop c name σ).1
  unfolding perform
  IsIdle-step name k σ keyed idle = (
    (perform_refines c laws (stops name) σ keyed).1,
    elim (Result-cases (stop c name σ).0) [
      | inl (u, h) ↦ (IsIdle-stop name k σ keyed h idle).1
      | inr (e, h) ↦ ap found_active (perform_fails c laws (stops name) σ e h k) ∙ idle
    ],
  )

  IsIdle-each_member :
      (name k : String) (ms : List MatrixMember) (first : Option Error) (σ : System S M N W)
      → IsKeyed c σ
      → IsIdle c k σ
      → let σ' = (each_member (stop c) "stop member " name ms first σ).1 in
        IsKeyed c σ' × IsIdle c k σ'
  unfolding each_member
  IsIdle-each_member name k [] first σ keyed idle = (keyed, idle)
  IsIdle-each_member name k (m ∷ ms) first σ keyed idle =
      let (keyed1, idle1) = IsIdle-step (sandbox_name name m) k σ keyed idle in
      IsIdle-each_member name k ms _ (stop c (sandbox_name name m) σ).1 keyed1 idle1

  -- Over a store that keeps the store laws, if the sandbox of some member is not running or
  -- ready, StopMatrix returns an error, whatever it did to the other members, leaves the matrix
  -- records as they were and that sandbox neither running nor ready, so that the same holds of
  -- the next StopMatrix; for sandboxes stored under their own names.
  pub stop_matrix_stuck :
      (st : Store M Matrix) (name k : String) (mx : Matrix) (σ : System S M N W)
      → c.matrices ≡ some st
      → st.get name σ.matrices ≡ ok mx
      → IsKeyed c σ
      → HasSandbox name mx.members k
      → IsIdle c k σ
      → let σ' = (stop_matrix c name σ).1 in
        ((e : Error) × ((stop_matrix c name σ).0 ≡ err e))
        × (σ'.matrices ≡ σ.matrices)
        × IsKeyed c σ'
        × IsIdle c k σ'
  unfolding stop_matrix
  stop_matrix_stuck st name k mx σ conf e keyed has idle =
      let loop = each_member (stop c) "stop member " name mx.members none σ in
      let same = stop_members_matrices c laws name mx.members none σ in
      let noisy = IsIdle-members name k mx.members σ keyed has idle in
      let (keyed', idle') = IsIdle-each_member name k mx.members none σ keyed idle in
      elim (Bool-cases (is_running mx.state)) [
        | inr halted ↦ rw (conf, e, halted, stop_matrix) ((_, refl), refl, keyed, idle)
        | inl running ↦ elim (Option-cases loop.0) [
          | inl quiet ↦ absurd (noisy quiet)
          | inr (x, f) ↦
              let failed : (stop_matrix c name σ).0 ≡ err x = ground arith in
              let left : (stop_matrix c name σ).1 ≡ loop.1 = ground arith in
              ((x, failed), rw left same, rw left keyed', rw left idle')
        ]
      ]
