-- ===== src/Controller/Restore.antt =====
-- Restore of internal/controller/controller.go: a new sandbox from a snapshot of another one.
pub mod Restored
use Prim.Native.String.{◌++◌ as str_append}
use sandboxmatrix.Base.{ℕ, String, Bool, Option, none, some, List, [], ◌∷◌, str_eq, if◌then◌else◌}
use sandboxmatrix.Base.Int.{pos}
use sandboxmatrix.Base.Action.{
  Action, Error, Result, quoted, wrap, ok, err, is_ok, pure, ◌>>=◌, ◌>>◌,
}
use sandboxmatrix.Api.{Blueprint, Sandbox, creating}
use sandboxmatrix.Runtime.{CreateConfig, DeviceMapping}
use sandboxmatrix.Blueprint.{parse_file}
use sandboxmatrix.Controller.{System, Controller, save, wrapping}
use sandboxmatrix.Controller.Create.{Host, build_device_config, gpu_config, failed}
use sandboxmatrix.Controller.Create.Run.{give_up, start_and_track}

-- The record that Restore saves first.
abbrev pub restored_sandbox : Sandbox → String → String → ℕ → Sandbox
restored_sandbox source name new_name t = record {
  type_meta = record { api_version = "smx/v1alpha1"; kind = "Sandbox" };
  metadata = record {
    name = new_name;
    version = "";
    labels =
        ("blueprint", source.spec.blueprint_ref)
        ∷ ("restored", "true")
        ∷ ("restored-from", name)
        ∷ [];
    created_at = t;
    updated_at = t;
  };
  spec = record {
    blueprint_ref = source.spec.blueprint_ref;
    blueprint_path = source.spec.blueprint_path;
    resources = source.spec.resources;
    workspace = source.spec.workspace;
    team = "";
    priority = pos 0;
  };
  status = record {
    state = creating;
    runtime_id = "";
    ip = "";
    started_at = none;
    ready_at = none;
    stopped_at = none;
    message = "";
    probe_error = "";
  };
}

module _ {S M N W B : Type 0} (c : Controller S M N W) (h : Host W B) where
  -- The devices of the source's blueprint, if it can be read.
  abbrev devices_of : W → Result Blueprint → List DeviceMapping
  devices_of w (err e) = []
  devices_of w (ok bp) = build_device_config h w bp.spec.devices

  -- The configuration of the new container.
  unfoldable pub restore_config : Sandbox → String → String → W → CreateConfig
  unfolding parse_file
  restore_config source new_name snapshot_id w =
      let devices = devices_of w (parse_file h.files source.spec.blueprint_path) in
      record {
        name = str_append "smx-" new_name;
        image = snapshot_id;
        cpu = source.spec.resources.cpu;
        memory = source.spec.resources.memory;
        disk = "";
        gpu = gpu_config source.spec.resources.gpu;
        devices = if str_eq source.spec.blueprint_path "" then [] else devices;
        mounts = [];
        ports = [];
        env = [];
        cmd = [];
        labels =
            ("sandboxmatrix/sandbox", new_name)
            ∷ ("sandboxmatrix/blueprint", source.spec.blueprint_ref)
            ∷ ("sandboxmatrix/restored", "true")
            ∷ [];
        network = record { mode = ""; dns = [] };
      }

  -- startAndTrack and the last save.
  abbrev pub track_restored : String → Sandbox → Action (System S M N W) Sandbox
  track_restored id sb = do
    sb1 ← start_and_track c h id sb
    wrapping "save state" (save c sb1)
    pure sb1

  -- From the first save on, with the configuration built before it.
  abbrev pub restore_with : CreateConfig → String → Sandbox → Action (System S M N W) Sandbox
  restore_with cfg snapshot_id sb σ =
      let saved = wrapping "save state" (save c sb) σ in
      let made = c.runtime.restore snapshot_id cfg saved.1.world in
      let σ1 = record saved.1 { world = made.1 } in
      elim saved.0 [
        | err e ↦ (err e, saved.1)
        | ok u ↦ elim made.0 [
          | err e ↦ (err (wrap "restore runtime" e), (give_up c h (failed sb (h.text_of e)) e σ1).1)
          | ok id ↦ track_restored id sb σ1
        ]
      ]

  unfoldable pub restore : String → String → String → Action (System S M N W) Sandbox
  unfolding restore_config give_up start_and_track
  restore name snapshot_id new_name σ = elim (c.store.get name σ.sandboxes) [
    | err e ↦ (err e, σ)
    | ok source ↦
        if is_ok (c.store.get new_name σ.sandboxes)
        then (err (quoted "sandbox already exists" new_name), σ)
        else restore_with (restore_config source new_name snapshot_id σ.world) snapshot_id
            (restored_sandbox source name new_name (c.clock σ.world)) σ
  ]
