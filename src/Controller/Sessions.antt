-- ===== src/Controller/Sessions.antt =====
-- internal/controller/session.go: the sessions of a sandbox. A session id is the sandbox's name with
-- random bytes: it is an argument. ListSessions, which reads only, is left out.
-- The source takes no lock here: each function below is a call that no other one overlaps. One that
-- runs between the reading and the saving of an ExecInSession would be overwritten by the saving.
pub mod Counting
pub mod Ended
use Prim.Native.String.{◌++◌ as str_append}
use sandboxmatrix.Base.{
  ℕ, suc, String, Option, none, some, [], Bool, not, true, false, if◌then◌else◌,
}
use sandboxmatrix.Base.Action.{
  Action, Error, Result, message, with_state, wrap, ok, err, wrapped, reject_if, pure, fail, ◌>>=◌,
  ◌>>◌,
}
use sandboxmatrix.Api.{Session, SessionState, Sandbox}
use sandboxmatrix.State.{Store}
use sandboxmatrix.Runtime.{ExecConfig, ExecResult}
use sandboxmatrix.Controller.{
  System, Controller, state_text, is_active, get, now, wrapping, exec, failure_code,
}

pub session_text : SessionState → String
session_text SessionState.active = "Active"
session_text SessionState.completed = "Completed"
session_text SessionState.failed = "Failed"

abbrev pub is_open : SessionState → Bool
is_open SessionState.active = true
is_open _ = false

abbrev pub not_configured : Error
not_configured = message "sessions not configured"

-- fmt.Errorf(kind + " %q not found: %w", name, err)
abbrev pub not_found {ℓ} : {A : Type ℓ} → String → String → Result A → Result A
not_found kind name r = wrapped (str_append kind (str_append name " not found")) r

abbrev pub new_session : String → String → ℕ → Session
new_session id sandbox t = record {
  type_meta = record { api_version = "smx/v1alpha1"; kind = "Session" };
  metadata = record { name = id; version = ""; labels = []; created_at = t; updated_at = t };
  sandbox = sandbox;
  state = SessionState.active;
  started_at = some t;
  ended_at = none;
  exec_count = 0;
}

abbrev pub completed_at : Session → ℕ → Session
completed_at s t = record s {
  state = SessionState.completed;
  ended_at = some t;
  metadata = record s.metadata { updated_at = t };
}

abbrev pub counted_at : Session → ℕ → Session
counted_at s t = record s {
  exec_count = suc s.exec_count;
  metadata = record s.metadata { updated_at = t };
}

module _ {S M N W : Type 0} (c : Controller S M N W) where
  abbrev pub save_session : Store N Session → Session → Action (System S M N W) (Unit {0})
  save_session st s σ = ((st.save s σ.sessions).0, record σ { sessions = (st.save s σ.sessions).1 })

  abbrev pub find_session : Store N Session → String → Action (System S M N W) Session
  find_session st id σ = (not_found "session " id (st.get id σ.sessions), σ)

  abbrev start_with : String → String → Store N Session → Action (System S M N W) Session
  start_with id name st = do
    sb ← λ σ. (not_found "sandbox " name (c.store.get name σ.sandboxes), σ)
    reject_if (not (is_active sb.status.state))
        (with_state "sandbox is not running" name (state_text sb.status.state))
    t ← now c
    wrapping "save session" (save_session st (new_session id name t))
    pure (new_session id name t)

  unfoldable pub start_session : String → String → Action (System S M N W) Session
  unfolding state_text
  start_session id name σ = elim c.sessions [
    | none ↦ (err not_configured, σ)
    | some st ↦ start_with id name st σ
  ]

  abbrev end_with : String → Store N Session → Action (System S M N W) (Unit {0})
  unfolding session_text
  end_with id st = do
    s ← find_session st id
    reject_if (not (is_open s.state)) (with_state "session is not active" id (session_text s.state))
    t ← now c
    save_session st (completed_at s t)

  unfoldable pub end_session : String → Action (System S M N W) (Unit {0})
  unfolding session_text
  end_session id σ = elim c.sessions [ none ↦ (err not_configured, σ) | some st ↦ end_with id st σ ]

  -- After Exec: the count goes up if the command ran, and a save that fails is reported beside the result.
  abbrev count_exec :
      Store N Session
      → Session
      → (ExecResult × Option Error) × System S M N W
      → (ExecResult × Option Error) × System S M N W
  count_exec st s ((r, some e), σ) = ((r, some e), σ)
  count_exec st s ((r, none), σ) =
      let saved = save_session st (counted_at s (c.clock σ.world)) σ in
      elim saved.0 [
        | ok u ↦ ((r, none), saved.1)
        | err e ↦ ((r, some (wrap "command succeeded but session update failed" e)), saved.1)
      ]

  abbrev exec_with :
      String
      → ExecConfig
      → Store N Session
      → System S M N W
      → (ExecResult × Option Error) × System S M N W
  unfolding session_text
  exec_with id cfg st σ = elim (not_found "session " id (st.get id σ.sessions)) [
    | err e ↦ ((record { exit_code = failure_code }, some e), σ)
    | ok s ↦ if is_open s.state then count_exec st s (exec c s.sandbox cfg σ) else (
      (
        record { exit_code = failure_code },
        some (with_state "session is not active" id (session_text s.state)),
      ),
      σ,
    )
  ]

  unfoldable pub exec_in_session :
      String → ExecConfig → System S M N W → (ExecResult × Option Error) × System S M N W
  unfolding session_text
  exec_in_session id cfg σ = elim c.sessions [
    | none ↦ ((record { exit_code = failure_code }, some not_configured), σ)
    | some st ↦ exec_with id cfg st σ
  ]
