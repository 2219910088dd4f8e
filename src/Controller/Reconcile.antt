-- ===== src/Controller/Reconcile.antt =====
-- internal/controller/reconciler.go: records for the containers that the runtime has and the store lacks.
pub mod Tracking
use Prim.Native.String.{◌++◌ as str_append}
use sandboxmatrix.Base.{ℕ, String, false, none, some, List, [], ◌∷◌, str_eq, if◌then◌else◌}
use sandboxmatrix.Base.Dict.{Dict, lookup}
use sandboxmatrix.Base.Int.{pos}
use sandboxmatrix.Base.Action.{Action, Result, ok, err, wrapped, is_ok, ◌>>=◌, ◌>>◌}
use sandboxmatrix.Api.{
  Sandbox, SandboxState, pending, running, stopped, error, Resources, WorkspaceSpec,
}
use sandboxmatrix.Runtime.{Info}
use sandboxmatrix.Controller.{System, Controller, now, save, on_world, wrapping}

unfoldable pub map_container_state : String → SandboxState
map_container_state s =
    if str_eq s "running"
    then running
    else if str_eq s "exited"
    then stopped
    else if str_eq s "created"
    then pending
    else error

-- m[k], the empty string for a missing key.
abbrev pub value_of : String → Dict String → String
value_of k d = elim (lookup k d) [ none ↦ "" | some v ↦ v ]

abbrev pub label_of : Info → String
label_of info = value_of "sandboxmatrix/sandbox" info.labels

-- The record of a container that has the label of a sandbox.
abbrev pub recovered : Info → ℕ → Sandbox
recovered info t = record {
  type_meta = record { api_version = "smx/v1alpha1"; kind = "Sandbox" };
  metadata = record {
    name = label_of info;
    version = "";
    labels =
        ("blueprint", value_of "sandboxmatrix/blueprint" info.labels) ∷ ("reconciled", "true") ∷ [];
    created_at = t;
    updated_at = t;
  };
  spec = record {
    blueprint_ref = value_of "sandboxmatrix/blueprint" info.labels;
    blueprint_path = "";
    resources = record { cpu = ""; memory = ""; disk = ""; gpu = none };
    workspace = record { mount_path = ""; source = ""; read_only = false };
    team = "";
    priority = pos 0;
  };
  status = record {
    state = map_container_state info.state;
    runtime_id = info.id;
    ip = info.ip;
    started_at = none;
    ready_at = none;
    stopped_at = none;
    message = "";
    probe_error = "";
  };
}

module _ {S M N W : Type 0} (c : Controller S M N W) where
  abbrev save_recovered : Info → Action (System S M N W) (Unit {0})
  save_recovered info = do
    t ← now c
    wrapping (str_append "reconcile: save sandbox " (label_of info)) (save c (recovered info t))

  -- One round of the loop.
  unfoldable pub track : Info → Action (System S M N W) (Unit {0})
  unfolding map_container_state
  track info σ =
      let save = save_recovered info σ in
      if str_eq (label_of info) ""
      then (ok tt, σ)
      else if is_ok (c.store.get (label_of info) σ.sandboxes)
      then (ok tt, σ)
      else save

  unfoldable pub track_all : List Info → Action (System S M N W) (Unit {0})
  track_all [] = λ σ. (ok tt, σ)
  track_all (info ∷ infos) = track info >> track_all infos

  unfoldable pub reconcile : Action (System S M N W) (Unit {0})
  unfolding track_all
  reconcile = do
    infos ← wrapping "reconcile: list runtime containers" (on_world c.runtime.list)
    track_all infos
