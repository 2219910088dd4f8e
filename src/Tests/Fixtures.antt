-- ===== src/Tests/Fixtures.antt =====
-- A host that counts its calls, and a system with one sandbox, one matrix and one session on it.
use sandboxmatrix.Base.{ℕ, suc, String, false, none, some, List, [], ◌∷◌, arith, eq_iff}
use sandboxmatrix.Base.Dict.{Dict, lookup}
use sandboxmatrix.Base.Int.{pos}
use sandboxmatrix.Base.Action.{ok}
use sandboxmatrix.Api.{
  Sandbox, SandboxState, Session, SessionState, Matrix, MatrixState, MatrixMember, Resources,
  WorkspaceSpec,
}
use sandboxmatrix.State.{StoreLaws}
use sandboxmatrix.State.Memory.{memory}
use sandboxmatrix.State.Memory.Laws.{memory-StoreLaws}
use sandboxmatrix.Runtime.{Runtime, Info}
use sandboxmatrix.Controller.{System, Controller}
use sandboxmatrix.Controller.Lifecycle.{name_of, IsKeyed}
use sandboxmatrix.Controller.Sessions.Counting.{session_name}

-- Every call succeeds and takes one tick. The containers listed are those given.
abbrev pub host : List Info → Runtime ℕ
host infos = record {
  create = λ cfg w. (ok "c2", suc w);
  start = λ id w. (ok tt, suc w);
  stop = λ id w. (ok tt, suc w);
  destroy = λ id w. (ok tt, suc w);
  exec = λ id cfg w. ((record { exit_code = pos 0 }, none), suc w);
  info =
      λ id w. (ok (record { id = id; name = ""; image = ""; state = ""; ip = ""; labels = [] }), w);
  list = λ w. (ok infos, w);
  snapshot = λ id tag w. (ok tag, suc w);
  restore = λ id cfg w. (ok "c3", suc w);
  list_snapshots = λ id w. (ok [], w);
  delete_snapshot = λ id w. (ok tt, suc w);
  create_network = λ n b w. (ok tt, suc w);
  delete_network = λ n w. (ok tt, suc w);
}

abbrev pub matrix_name : Matrix → String
matrix_name mx = mx.metadata.name

abbrev pub Fleet : Type 0
Fleet = System (Dict Sandbox) (Dict Matrix) (Dict Session) ℕ

abbrev pub controller : List Info → Controller (Dict Sandbox) (Dict Matrix) (Dict Session) ℕ
controller infos = record {
  runtime = host infos;
  store = memory "sandbox not found" name_of;
  matrices = some (memory "matrix not found" matrix_name);
  sessions = some (memory "session not found" session_name);
  clock = λ w. w;
}

abbrev pub sandbox_laws : StoreLaws (memory "sandbox not found" name_of) name_of
sandbox_laws = memory-StoreLaws "sandbox not found" name_of

abbrev pub no_resources : Resources
no_resources = record { cpu = ""; memory = ""; disk = ""; gpu = none }

abbrev pub no_workspace : WorkspaceSpec
no_workspace = record { mount_path = ""; source = ""; read_only = false }

abbrev pub web : SandboxState → Sandbox
web s = record {
  type_meta = record { api_version = "smx/v1alpha1"; kind = "Sandbox" };
  metadata = record { name = "m-web"; version = ""; labels = []; created_at = 0; updated_at = 0 };
  spec = record {
    blueprint_ref = "";
    blueprint_path = "";
    resources = no_resources;
    workspace = no_workspace;
    team = "";
    priority = pos 0;
  };
  status = record {
    state = s;
    runtime_id = "c1";
    ip = "";
    started_at = none;
    ready_at = none;
    stopped_at = none;
    message = "";
    probe_error = "";
  };
}

-- A matrix "m" with the members web and db: only the first has a sandbox unless the list says otherwise.
abbrev pub group : List String → Matrix
group members = record {
  type_meta = record { api_version = "smx/v1alpha1"; kind = "Matrix" };
  metadata = record { name = "m"; version = ""; labels = []; created_at = 0; updated_at = 0 };
  spec = record { team = "" };
  members = members_of members;
  state = MatrixState.active;
}
  where
    members_of : List String → List MatrixMember
    members_of [] = []
    members_of (n ∷ ns) = record { name = n; blueprint = "" } ∷ members_of ns

abbrev pub terminal : Session
terminal = record {
  type_meta = record { api_version = "smx/v1alpha1"; kind = "Session" };
  metadata = record { name = "s1"; version = ""; labels = []; created_at = 0; updated_at = 0 };
  sandbox = "m-web";
  state = SessionState.active;
  started_at = some 0;
  ended_at = none;
  exec_count = 0;
}

abbrev pub fleet : SandboxState → List String → Fleet
fleet s members = record {
  sandboxes = ("m-web", web s) ∷ [];
  matrices = ("m", group members) ∷ [];
  sessions = ("s1", terminal) ∷ [];
  world = 7;
}

pub fleet-IsKeyed :
    (s : SandboxState) (ms : List String) (infos : List Info)
    → IsKeyed (controller infos) (fleet s ms)
unfolding memory lookup
fleet-IsKeyed s ms infos k sb h = ground (arith, eq_iff "m-web" k)
