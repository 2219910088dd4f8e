-- ===== src/Tests/Sessions.antt =====
-- Runs of the operations on sessions, and of Reconcile.
use sandboxmatrix.Base.{String, ◌≡◌, ◌≢◌, refl, List, eq_iff, [], ◌∷◌, arith}
use sandboxmatrix.Base.Dict.{lookup, insert}
use sandboxmatrix.Base.Action.{ok}
use sandboxmatrix.Api.{Session, running}
use sandboxmatrix.State.{StoreLaws}
use sandboxmatrix.State.Memory.{memory}
use sandboxmatrix.State.Memory.Laws.{memory-StoreLaws}
use sandboxmatrix.Runtime.{Info, ExecConfig}
use sandboxmatrix.Controller.Sessions.{end_session}
use sandboxmatrix.Controller.Sessions.Counting.{session_name}
use sandboxmatrix.Controller.Sessions.Ended.{
  SessionCall, starts, ends, execs, call_all, ended_stays,
}
use sandboxmatrix.Controller.Reconcile.{track_all, track, reconcile}
use sandboxmatrix.Controller.Reconcile.Tracking.{AllKnown, reconcile_tracks}
use sandboxmatrix.Tests.Fixtures.{controller, fleet, sandbox_laws}

session_laws : StoreLaws (memory "session not found" session_name) session_name
session_laws = memory-StoreLaws "session not found" session_name

abbrev list_files : ExecConfig
list_files = record { cmd = "ls" ∷ []; env = []; dir = "" }

sessions_named :
    (k : String) (s : Session)
    → (memory "session not found" session_name).get k (fleet running []).sessions ≡ ok s
    → session_name s ≡ k
unfolding memory lookup
sessions_named k s h = ground (arith, eq_iff "s1" k)

-- After its end, a new session is started and the ended one is ended and used again.
abbrev later : List SessionCall
later = starts "s2" "m-web" ∷ ends "s1" ∷ execs "s1" list_files ∷ []

ended_stays_example :
    (end_session
      (controller [])
      "s1"
      (call_all (controller []) later (end_session (controller []) "s1" (fleet running [])).1)).0
    ≢ ok tt
unfolding end_session memory lookup insert
ended_stays_example =
    (ended_stays (controller []) (memory "session not found" session_name) session_laws refl later
      "s1" (fleet running []) list_files sessions_named
      ((λ e. ground (arith, eq_iff "s2" "s1")), tt) refl).1

-- A container of a sandbox that the store does not know, and one without a label.
abbrev lost : Info
lost = record {
  id = "c9";
  name = "";
  image = "";
  state = "exited";
  ip = "";
  labels = ("sandboxmatrix/sandbox", "db") ∷ [];
}

abbrev foreign : Info
foreign = record { id = "c8"; name = ""; image = ""; state = "running"; ip = ""; labels = [] }

reconcile_tracks_example :
    AllKnown
      (controller (lost ∷ foreign ∷ []))
      (lost ∷ foreign ∷ [])
      (reconcile (controller (lost ∷ foreign ∷ [])) (fleet running [])).1
unfolding reconcile track_all track memory lookup insert
reconcile_tracks_example =
    (reconcile_tracks (controller (lost ∷ foreign ∷ [])) sandbox_laws (fleet running [])
      (lost ∷ foreign ∷ []) 7 refl refl).1
