-- ===== src/Controller.antt =====
-- internal/controller/controller.go: the controller and its operations on one sandbox. The mutex c.mu
-- is held for the whole of Create, Stop, Start and Destroy, so each is one action. Metrics, traces and logs,
-- which nothing reads, are left out.
pub mod Lifecycle
pub mod Sessions
pub mod Matrices
pub mod Reconcile
pub mod Create
pub mod Restore
use sandboxmatrix.Base.{
  ℕ, String, Option, List, [], ◌∷◌, Bool, true, false, not, none, some, if◌then◌else◌, str_eq,
}
use sandboxmatrix.Base.Int.{ℤ, negsuc}
use sandboxmatrix.Base.Action.{
  Action, Error, quoted, with_state, ok, err, wrapped, gets, reject_if, pure, ◌>>=◌, ◌>>◌,
}
use sandboxmatrix.Api.{
  Sandbox, SandboxState, pending, creating, running, stopped, error, ready, destroying, destroyed,
  paused, Matrix, Session,
}
use sandboxmatrix.State.{Store}
use sandboxmatrix.Runtime.{Runtime, ExecConfig, ExecResult, SnapshotInfo}

-- What the controller's pointers refer to: the sandbox, matrix and session stores, and the backend.
pub record System (S M N W : Type 0) : Type 0 where
  pub sandboxes : S
  pub matrices : M
  pub sessions : N
  pub world : W

-- The struct Controller, with time.Now as `clock`; a store that is nil is `none`.
pub record Controller (S M N W : Type 0) : Type 0 where
  pub runtime : Runtime W
  pub store : Store S Sandbox
  pub matrices : Option (Store M Matrix)
  pub sessions : Option (Store N Session)
  pub clock : W → ℕ

pub state_text : SandboxState → String
state_text pending = "Pending"
state_text creating = "Creating"
state_text running = "Running"
state_text stopped = "Stopped"
state_text error = "Error"
state_text ready = "Ready"
state_text destroying = "Destroying"
state_text destroyed = "Destroyed"
state_text paused = "Paused"

-- state == Running || state == Ready
abbrev pub is_active : SandboxState → Bool
is_active running = true
is_active ready = true
is_active _ = false

abbrev pub is_stopped : SandboxState → Bool
is_stopped stopped = true
is_stopped _ = false

module _ {S M N W : Type 0} where
  abbrev pub on_sandboxes {ℓ} : {A : Type ℓ} → Action S A → Action (System S M N W) A
  on_sandboxes m σ = ((m σ.sandboxes).0, record σ { sandboxes = (m σ.sandboxes).1 })

  abbrev pub on_world {ℓ} : {A : Type ℓ} → Action W A → Action (System S M N W) A
  on_world m σ = ((m σ.world).0, record σ { world = (m σ.world).1 })

  abbrev pub wrapping {ℓ} :
      {A : Type ℓ} → String → Action (System S M N W) A → Action (System S M N W) A
  wrapping text m σ = (wrapped text (m σ).0, (m σ).1)

-- ExitCode: -1
abbrev pub failure_code : ℤ
failure_code = negsuc 0

module _ {S M N W : Type 0} (c : Controller S M N W) where
  abbrev pub get : String → Action (System S M N W) Sandbox
  get name σ = (c.store.get name σ.sandboxes, σ)

  abbrev pub save : Sandbox → Action (System S M N W) (Unit {0})
  save sb = on_sandboxes (c.store.save sb)

  abbrev pub now : Action (System S M N W) ℕ
  now = gets (λ σ. c.clock σ.world)

  abbrev pub stopped_at : Sandbox → ℕ → Sandbox
  stopped_at sb t = record sb {
    status = record sb.status { state = stopped; stopped_at = some t };
    metadata = record sb.metadata { updated_at = t };
  }

  abbrev pub started_at : Sandbox → ℕ → Sandbox
  started_at sb t = record sb {
    status = record sb.status { state = running; started_at = some t; stopped_at = none };
    metadata = record sb.metadata { updated_at = t };
  }

  unfoldable pub stop : String → Action (System S M N W) (Unit {0})
  unfolding state_text
  stop name = do
    sb ← get name
    reject_if (not (is_active sb.status.state))
        (with_state "sandbox is not running" name (state_text sb.status.state))
    wrapping "stop runtime" (on_world (c.runtime.stop sb.status.runtime_id))
    t ← now
    save (stopped_at sb t)

  unfoldable pub start : String → Action (System S M N W) (Unit {0})
  unfolding state_text
  start name = do
    sb ← get name
    reject_if (not (is_stopped sb.status.state))
        (with_state "sandbox is not stopped" name (state_text sb.status.state))
    wrapping "start runtime" (on_world (c.runtime.start sb.status.runtime_id))
    t ← now
    save (started_at sb t)

  -- The container goes first: if that fails the record stays.
  abbrev destroy_container : String → Action (System S M N W) (Unit {0})
  destroy_container id =
      if str_eq id ""
      then (λ σ. (ok tt, σ))
      else wrapping "destroy runtime" (on_world (c.runtime.destroy id))

  unfoldable pub destroy : String → Action (System S M N W) (Unit {0})
  destroy name = do
    sb ← get name
    destroy_container sb.status.runtime_id
    on_sandboxes (c.store.delete name)

  -- The runtime's result comes back beside its error.
  unfoldable pub exec :
      String → ExecConfig → System S M N W → (ExecResult × Option Error) × System S M N W
  unfolding state_text
  exec name cfg σ = elim (c.store.get name σ.sandboxes) [
    | err e ↦ ((record { exit_code = failure_code }, some e), σ)
    | ok sb ↦
        if is_active sb.status.state
        then (let r = c.runtime.exec sb.status.runtime_id cfg σ.world in
            (r.0, record σ { world = r.1 }))
        else (
          (
            record { exit_code = failure_code },
            some (with_state "sandbox is not running" name (state_text sb.status.state)),
          ),
          σ,
        )
  ]

  unfoldable pub snapshot : String → String → Action (System S M N W) String
  snapshot name tag = do
    sb ← get name
    reject_if (str_eq sb.status.runtime_id "") (quoted "sandbox has no runtime ID" name)
    wrapping "snapshot runtime" (on_world (c.runtime.snapshot sb.status.runtime_id tag))

  unfoldable pub list_snapshots : String → Action (System S M N W) (List SnapshotInfo)
  list_snapshots name = do
    sb ← get name
    reject_if (str_eq sb.status.runtime_id "") (quoted "sandbox has no runtime ID" name)
    on_world (c.runtime.list_snapshots sb.status.runtime_id)

  unfoldable pub delete_snapshot : String → Action (System S M N W) (Unit {0})
  delete_snapshot id = on_world (c.runtime.delete_snapshot id)

  unfoldable pub running_sandbox_id : String → Action (System S M N W) String
  unfolding state_text
  running_sandbox_id name = do
    sb ← get name
    reject_if (not (is_active sb.status.state))
        (with_state "sandbox is not running" name (state_text sb.status.state))
    pure sb.status.runtime_id

-- The methods that change one existing sandbox.
pub data Command : Type 0 where
  stops starts destroys : String → Command

module _ {S M N W : Type 0} (c : Controller S M N W) where
  unfoldable pub perform : Command → Action (System S M N W) (Unit {0})
  perform (stops name) = stop c name
  perform (starts name) = start c name
  perform (destroys name) = destroy c name

  -- The state after a sequence of calls, whether they return errors or not.
  unfoldable pub run : List Command → System S M N W → System S M N W
  run [] σ = σ
  run (x ∷ xs) σ = run xs (perform x σ).1
