-- ===== src/Tests/Lifecycle.antt =====
-- Runs of the operations on sandboxes, sessions and matrices.
use sandboxmatrix.Base.{true, false, ◌⊎◌, ◌≡◌, some, none, [], ◌∷◌}
use sandboxmatrix.Base.Dict.{lookup, insert, remove}
use sandboxmatrix.Base.Action.{Error, ok, err}
use sandboxmatrix.Api.{running}
use sandboxmatrix.State.{StoreLaws}
use sandboxmatrix.State.Memory.{memory}
use sandboxmatrix.State.Memory.Laws.{memory-StoreLaws}
use sandboxmatrix.Controller.{stops, starts, destroys, perform, run, stop, start, destroy}
use sandboxmatrix.Controller.Lifecycle.{SameSandboxes, name_of}
use sandboxmatrix.Controller.Lifecycle.Effects.{Effect, perform_effects}
use sandboxmatrix.Controller.Lifecycle.Following.{Follows, run-Follows}
use sandboxmatrix.Tests.Fixtures.{controller, fleet, fleet-IsKeyed, sandbox_laws}

run-Follows_example :
    Follows "m-web"
      ((stops "m-web", true)
        ∷ (starts "m-web", true)
        ∷ (stops "other", false)
        ∷ (destroys "m-web", true)
        ∷ [])
      (some running)
      none
unfolding run perform stop start destroy memory lookup insert remove
run-Follows_example =
    run-Follows (controller []) sandbox_laws
      (stops "m-web" ∷ starts "m-web" ∷ stops "other" ∷ destroys "m-web" ∷ []) (fleet running [])
      "m-web" (fleet-IsKeyed running [] [])

perform_effects_example :
    (((perform (controller []) (stops "m-web") (fleet running [])).0 ≡ ok tt)
      × Effect
          (controller [])
          (stops "m-web")
          (fleet running [])
          (perform (controller []) (stops "m-web") (fleet running [])).1)
    ⊎ ((e : Error) × ((perform (controller []) (stops "m-web") (fleet running [])).0 ≡ err e)
        × SameSandboxes
            (controller [])
            (fleet running [])
            (perform (controller []) (stops "m-web") (fleet running [])).1)
perform_effects_example =
    perform_effects (controller []) sandbox_laws (stops "m-web") (fleet running [])
      (fleet-IsKeyed running [] [])

memory_laws_example : StoreLaws (memory "sandbox not found" name_of) name_of
memory_laws_example = memory-StoreLaws "sandbox not found" name_of
