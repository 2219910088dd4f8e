-- ===== src/Tests/Matrices.antt =====
-- Runs of StopMatrix on a matrix with one member, and with a member that has no sandbox.
use sandboxmatrix.Base.{ℕ, String, ◌≡◌, refl, inl, inr, true, [], ◌∷◌, if◌then◌else◌, str_eq, arith}
use sandboxmatrix.Base.Dict.{lookup, insert}
use sandboxmatrix.Base.Action.{Error, ok, err}
use sandboxmatrix.Api.{running, Matrix, MatrixState}
use sandboxmatrix.State.Memory.{memory}
use sandboxmatrix.State.Memory.Laws.{memory-StoreLaws}
use sandboxmatrix.Controller.{stop}
use sandboxmatrix.Controller.Lifecycle.{IsKeyed}
use sandboxmatrix.Controller.Matrices.{is_running, with_state_at, each_member, stop_matrix}
use sandboxmatrix.Controller.Matrices.Members.{AllStopped, stop_matrix_succeeds}
use sandboxmatrix.Controller.Matrices.Stuck.{IsIdle, stop_matrix_stuck}
use sandboxmatrix.Tests.Fixtures.{
  controller, fleet, fleet-IsKeyed, sandbox_laws, matrix_name, group,
}

matrix_named :
    (mx : Matrix)
    → (memory "matrix not found" matrix_name).get "m" (fleet running ("web" ∷ [])).matrices ≡ ok mx
    → mx.metadata.name ≡ "m"
unfolding memory lookup
matrix_named mx h = ground arith

stop_matrix_succeeds_example :
    (mx : Matrix) × (t : ℕ) × ((memory "matrix not found" matrix_name).get "m"
        (fleet running ("web" ∷ [])).matrices
      ≡ ok mx)
    × (is_running mx.state ≡ true)
    × AllStopped
        (controller [])
        "m"
        mx.members
        (stop_matrix (controller []) "m" (fleet running ("web" ∷ []))).1
    × ((k : String)
        → (memory "matrix not found" matrix_name).get k
            (stop_matrix (controller []) "m" (fleet running ("web" ∷ []))).1.matrices
          ≡ (if str_eq "m" k
              then ok (with_state_at mx MatrixState.stopped t)
              else (memory "matrix not found" matrix_name).get k
                  (fleet running ("web" ∷ [])).matrices))
unfolding stop_matrix each_member stop memory lookup insert
stop_matrix_succeeds_example =
    stop_matrix_succeeds (controller []) sandbox_laws (memory "matrix not found" matrix_name)
      (memory-StoreLaws "matrix not found" matrix_name) "m" (fleet running ("web" ∷ [])) refl
      (fleet-IsKeyed running ("web" ∷ []) []) matrix_named refl

stop_matrix_stuck_example :
    ((e : Error) × ((stop_matrix (controller []) "m" (fleet running ("web" ∷ "db" ∷ []))).0
        ≡ err e))
    × ((stop_matrix (controller []) "m" (fleet running ("web" ∷ "db" ∷ []))).1.matrices
        ≡ (fleet running ("web" ∷ "db" ∷ [])).matrices)
    × IsKeyed
        (controller [])
        (stop_matrix (controller []) "m" (fleet running ("web" ∷ "db" ∷ []))).1
    × IsIdle
        (controller [])
        "m-db"
        (stop_matrix (controller []) "m" (fleet running ("web" ∷ "db" ∷ []))).1
unfolding memory lookup
stop_matrix_stuck_example =
    stop_matrix_stuck (controller []) sandbox_laws (memory "matrix not found" matrix_name) "m"
      "m-db" (group ("web" ∷ "db" ∷ [])) (fleet running ("web" ∷ "db" ∷ [])) refl refl
      (fleet-IsKeyed running ("web" ∷ "db" ∷ []) []) (inr (inl refl)) refl
