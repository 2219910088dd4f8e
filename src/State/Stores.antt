-- ===== src/State/Stores.antt =====
-- The stores of internal/state: what each keeps, under which name, and its words.
use sandboxmatrix.Base.{String, List, str_eq, keep}
use sandboxmatrix.Base.Dict.{Dict}
use sandboxmatrix.Base.Action.{Action, Result, ok, err}
use sandboxmatrix.Api.{Sandbox, Matrix, Session}
use sandboxmatrix.Api.Team.{Team}
use sandboxmatrix.State.{Store}
use sandboxmatrix.State.Memory.{memory}
use sandboxmatrix.State.File.{Os, Codec, Wording, new_file_store, file_store, file_list}

abbrev pub sandbox_key : Sandbox → String
sandbox_key s = s.metadata.name

abbrev pub matrix_key : Matrix → String
matrix_key m = m.metadata.name

abbrev pub session_key : Session → String
session_key s = s.metadata.name

abbrev pub team_key : Team → String
team_key t = t.name

abbrev pub state_wording : Wording
state_wording = record {
  missing = "sandbox not found";
  reading = "reading state file";
  parsing = "parsing state file";
  marshaling = "marshaling state";
  renaming = "renaming temp file to state file";
  creating = "creating state directory";
  initializing = "initializing state file";
}

-- The words of the other three name their own things.
abbrev pub wording_of : String → String → String → String → String → String → String → Wording
wording_of missing reading parsing marshaling renaming creating initializing = record {
  missing = missing;
  reading = reading;
  parsing = parsing;
  marshaling = marshaling;
  renaming = renaming;
  creating = creating;
  initializing = initializing;
}

abbrev pub matrix_wording : Wording
matrix_wording =
    wording_of "matrix not found" "reading matrices file" "parsing matrices file"
      "marshaling matrices" "renaming temp file to matrices file" "creating matrices directory"
      "initializing matrices file"

abbrev pub session_wording : Wording
session_wording =
    wording_of "session not found" "reading sessions file" "parsing sessions file"
      "marshaling sessions" "renaming temp file to sessions file" "creating sessions directory"
      "initializing sessions file"

abbrev pub team_wording : Wording
team_wording =
    wording_of "team not found" "reading teams file" "parsing teams file" "marshaling teams"
      "renaming temp file to teams file" "creating teams directory" "initializing teams file"

-- A team is copied with its members on the way in and out, so a stored team has no alias either.
unfoldable pub memory_team_store : Store (Dict Team) Team
unfolding memory
memory_team_store = memory "team not found" team_key

module _ {W : Type 0} (os : Os W) (path : String) where
  unfoldable pub open_file_store : Action W (Unit {0})
  unfolding new_file_store
  open_file_store = new_file_store os state_wording path

  unfoldable pub open_matrix_store : Action W (Unit {0})
  unfolding new_file_store
  open_matrix_store = new_file_store os matrix_wording path

  unfoldable pub open_session_store : Action W (Unit {0})
  unfolding new_file_store
  open_session_store = new_file_store os session_wording path

  unfoldable pub open_team_store : Action W (Unit {0})
  unfolding new_file_store
  open_team_store = new_file_store os team_wording path

  unfoldable pub sandbox_file_store : Codec Sandbox → Store W Sandbox
  unfolding file_store
  sandbox_file_store json = file_store os state_wording path json sandbox_key

  unfoldable pub matrix_file_store : Codec Matrix → Store W Matrix
  unfolding file_store
  matrix_file_store json = file_store os matrix_wording path json matrix_key

  unfoldable pub session_file_store : Codec Session → Store W Session
  unfolding file_store
  session_file_store json = file_store os session_wording path json session_key

  unfoldable pub team_file_store : Codec Team → Store W Team
  unfolding file_store
  team_file_store json = file_store os team_wording path json team_key

  -- FileSessionStore.ListSessionsBySandbox
  unfoldable pub list_sessions_by_sandbox : Codec Session → String → W → Result (List Session)
  unfolding file_list
  list_sessions_by_sandbox json sandbox w =
      elim (file_list os session_wording path json session_key w) [
        | err e ↦ err e
        | ok ss ↦ ok (keep (λ (s : Session). str_eq s.sandbox sandbox) ss)
      ]
