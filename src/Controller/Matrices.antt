-- ===== src/Controller/Matrices.antt =====
-- internal/controller/matrix.go: Stop, Start and Destroy of a matrix, a group of sandboxes that share a
-- network; Formation has CreateMatrix.
pub mod Formation
pub mod Members
pub mod Stuck
use Prim.Native.String.{◌++◌ as str_append}
use sandboxmatrix.Base.{
  ℕ, String, Option, none, some, List, [], ◌∷◌, Bool, not, true, false, if◌then◌else◌,
}
use sandboxmatrix.Base.Action.{
  Action, Error, Result, message, with_state, ok, err, wrapped, first_error, reject_if, ◌>>=◌, ◌>>◌,
}
use sandboxmatrix.Api.{Matrix, MatrixMember, MatrixState}
use sandboxmatrix.State.{Store}
use sandboxmatrix.Controller.{System, Controller, now, on_world, stop, start, destroy}

abbrev pub matrix_text : MatrixState → String
matrix_text MatrixState.active = "Active"
matrix_text MatrixState.stopped = "Stopped"
matrix_text MatrixState.destroyed = "Destroyed"

abbrev pub is_running : MatrixState → Bool
is_running MatrixState.active = true
is_running _ = false

abbrev pub is_halted : MatrixState → Bool
is_halted MatrixState.stopped = true
is_halted _ = false

abbrev pub network_name : String → String
network_name name = str_append "smx-matrix-" name

-- name + "-" + member.Name
abbrev pub sandbox_name : String → MatrixMember → String
sandbox_name name m = str_append name (str_append "-" m.name)

abbrev pub with_state_at : Matrix → MatrixState → ℕ → Matrix
with_state_at mx s t = record mx { state = s; metadata = record mx.metadata { updated_at = t } }

abbrev pub unconfigured : Error
unconfigured = message "matrix store not configured"

module _ {S M N W : Type 0} where
  -- The loop over the members: it goes on after an error, and keeps the first one.
  unfoldable pub each_member :
      (String → Action (System S M N W) (Unit {0}))
      → String
      → String
      → List MatrixMember
      → Option Error
      → System S M N W
      → Option Error × System S M N W
  each_member op text name [] first σ = (first, σ)
  each_member op text name (m ∷ ms) first σ =
      let r = op (sandbox_name name m) σ in
      each_member op text name ms
        (first_error first (wrapped (str_append text (sandbox_name name m)) r.0)) r.1

module _ {S M N W : Type 0} (c : Controller S M N W) where
  abbrev pub save_matrix : Store M Matrix → Matrix → Action (System S M N W) (Unit {0})
  save_matrix st mx σ =
      ((st.save mx σ.matrices).0, record σ { matrices = (st.save mx σ.matrices).1 })

  -- if firstErr != nil { return firstErr }, and the record with its new state otherwise.
  abbrev settle :
      Store M Matrix
      → Matrix
      → MatrixState
      → Option Error × System S M N W
      → Result (Unit {0}) × System S M N W
  settle st mx s (some e, σ) = (err e, σ)
  settle st mx s (none, σ) = save_matrix st (with_state_at mx s (c.clock σ.world)) σ

  abbrev stop_with : String → Store M Matrix → Action (System S M N W) (Unit {0})
  stop_with name st = do
    mx ← λ σ. (st.get name σ.matrices, σ)
    reject_if (not (is_running mx.state))
        (with_state "matrix is not active" name (matrix_text mx.state))
    λ σ.
        settle st mx MatrixState.stopped
          (each_member (stop c) "stop member " name mx.members none σ)

  unfoldable pub stop_matrix : String → Action (System S M N W) (Unit {0})
  unfolding each_member
  stop_matrix name σ = elim c.matrices [
    | none ↦ (err unconfigured, σ)
    | some st ↦ stop_with name st σ
  ]

  abbrev start_with : String → Store M Matrix → Action (System S M N W) (Unit {0})
  start_with name st = do
    mx ← λ σ. (st.get name σ.matrices, σ)
    reject_if (not (is_halted mx.state))
        (with_state "matrix is not stopped" name (matrix_text mx.state))
    λ σ.
        settle st mx MatrixState.active
          (each_member (start c) "start member " name mx.members none σ)

  unfoldable pub start_matrix : String → Action (System S M N W) (Unit {0})
  unfolding each_member
  start_matrix name σ = elim c.matrices [
    | none ↦ (err unconfigured, σ)
    | some st ↦ start_with name st σ
  ]

  -- DestroyMatrix after its members: the network goes, whatever comes of it, and then the record.
  abbrev clean_up :
      String → Store M Matrix → Option Error × System S M N W → Result (Unit {0}) × System S M N W
  clean_up name st (first, σ) =
      let w = (c.runtime.delete_network (network_name name) σ.world).1 in
      let deleted = st.delete name σ.matrices in
      (
        elim (first_error first deleted.0) [ none ↦ ok tt | some e ↦ err e ],
        record σ { world = w; matrices = deleted.1 },
      )

  abbrev destroy_with : String → Store M Matrix → Action (System S M N W) (Unit {0})
  destroy_with name st = do
    mx ← λ σ. (st.get name σ.matrices, σ)
    λ σ. clean_up name st (each_member (destroy c) "destroy member " name mx.members none σ)

  unfoldable pub destroy_matrix : String → Action (System S M N W) (Unit {0})
  unfolding each_member
  destroy_matrix name σ = elim c.matrices [
    | none ↦ (err unconfigured, σ)
    | some st ↦ destroy_with name st σ
  ]
