-- ===== src/Controller/Create.antt =====
-- Create of internal/controller/controller.go with buildDeviceConfig, resolveSecrets and startAndTrack. It
-- holds the mutex throughout. The quota checker, the image cache and the probe runner are parameters.
pub mod Run
pub mod Flight
pub mod Reaches
pub mod Succeeds
pub mod Frame
use Prim.Native.String.{◌++◌ as str_append}
use sandboxmatrix.Base.{
  ℕ, suc, String, Bool, true, false, ◌&&◌, ◌||◌, not, Option, none, some, List, [], ◌∷◌, ◌++◌, map,
  str_eq, if◌then◌else◌,
}
use sandboxmatrix.Base.Dict.{Dict, insert}
use sandboxmatrix.Base.Int.{ℤ, pos, is_zero}
use sandboxmatrix.Base.Action.{
  Action, Error, Result, message, quoted, wrap, ok, err, wrapped, is_ok, pure, lift, reject_if,
  ◌>>=◌, ◌>>◌,
}
use sandboxmatrix.Api.{
  Blueprint, BlueprintSpec, Sandbox, SandboxState, creating, running, ready, error, DeviceMapping,
  SecretRef, SetupStep, ProbeConfig, GpuSpec, WorkspaceSpec,
}
use sandboxmatrix.Runtime.{
  DeviceMapping as RuntimeDevice, CreateConfig, GpuConfig, ExecConfig, ExecResult, Info,
  PortMapping, Mount,
}
use sandboxmatrix.Blueprint.{Files, validate_file}
use sandboxmatrix.Quota.{QuotaRequest}
use sandboxmatrix.Controller.{System, Controller, get, save, now, on_world, wrapping}

pub record CreateOptions : Type 0 where
  pub name : String
  pub blueprint_path : String
  pub workspace_dir : String
  pub network_name : String
  pub env : Dict String
  pub team : String

-- What Create calls besides the runtime and the store: os, strings and path/filepath, the quota checker
-- if there is one, CachedImage, probe.Runner.WaitForReady, and err.Error().
pub record Host (W B : Type 0) : Type 0 where
  pub files : Files B
  pub is_missing : W → String → Bool
  pub getenv : W → String → String
  pub read_trimmed : W → String → Result String
  pub has_prefix : String → String → Bool
  pub trim_prefix : String → String → String
  pub check_quota : Option (String → QuotaRequest → Action W (Unit {0}))
  pub cached_image : W → Blueprint → Option String
  pub wait_for_ready : String → String → ProbeConfig → Action W (Unit {0})
  pub text_of : Error → String

abbrev or_else : String → String → String
or_else s d = if str_eq s "" then d else s

module _ {W B : Type 0} (h : Host W B) where
  unfoldable pub build_device_config : W → List DeviceMapping → List RuntimeDevice
  build_device_config w [] = []
  build_device_config w (d ∷ ds) =
      let rest = build_device_config w ds in
      if d.optional && h.is_missing w d.host_path
      then rest
      else record {
        host_path = d.host_path;
        container_path = or_else d.container_path d.host_path;
        permissions = or_else d.permissions "rwm";
      }
        ∷ rest

  abbrev read_or_empty : Result String → String
  read_or_empty (ok s) = s
  read_or_empty (err e) = ""

  abbrev secret_value : W → String → String
  secret_value w source =
      if h.has_prefix source "env:"
      then h.getenv w (h.trim_prefix source "env:")
      else if h.has_prefix source "file:"
      then read_or_empty (h.read_trimmed w (h.trim_prefix source "file:"))
      else source

  -- resolveSecrets over the environment built so far: the map it returns is only ever copied into it.
  unfoldable pub resolve_secrets : W → List SecretRef → Dict String → Dict String
  resolve_secrets w [] env = env
  resolve_secrets w (s ∷ ss) env =
      resolve_secrets w ss (insert s.name (secret_value w s.source) env)

unfoldable pub set_all : Dict String → Dict String → Dict String
set_all [] d = d
set_all ((k, v) ∷ e) d = set_all e (insert k v d)

unfoldable pub network_mode : String → String → String
network_mode name policy =
    if not (str_eq name "")
    then name
    else if str_eq policy "none" || str_eq policy "isolate"
    then "none"
    else if str_eq policy "host"
    then "host"
    else if str_eq policy "bridge" || str_eq policy ""
    then "bridge"
    else policy

abbrev pub gpu_config : Option GpuSpec → Option GpuConfig
gpu_config none = none
gpu_config (some g) = some (record { count = g.count; driver = g.driver })

abbrev gpu_count : Option GpuSpec → ℤ
gpu_count none = pos 0
gpu_count (some g) = g.count

abbrev mounts_of : CreateOptions → WorkspaceSpec → List Mount
mounts_of o ws =
    if str_eq o.workspace_dir ""
    then []
    else record {
      source = o.workspace_dir;
      target = or_else ws.mount_path "/workspace";
      read_only = ws.read_only;
    }
      ∷ []

abbrev port_mapping : ℤ → PortMapping
port_mapping p = record { host_port = pos 0; container_port = p; protocol = "tcp" }

abbrev workspace_of : CreateOptions → WorkspaceSpec → WorkspaceSpec
workspace_of o ws =
    if str_eq o.workspace_dir ""
    then record { mount_path = ""; source = ""; read_only = false }
    else record { mount_path = ws.mount_path; source = o.workspace_dir; read_only = ws.read_only }

abbrev quota_request : Blueprint → QuotaRequest
quota_request bp = record {
  sandboxes = pos 1;
  cpu = bp.spec.resources.cpu;
  memory = bp.spec.resources.memory;
  disk = bp.spec.resources.disk;
  gpus = gpu_count bp.spec.resources.gpu;
  matrices = pos 0;
  sessions = pos 0;
}

-- The record that Create saves first.
abbrev pub new_sandbox : CreateOptions → Blueprint → ℕ → Sandbox
new_sandbox o bp t = record {
  type_meta = record { api_version = "smx/v1alpha1"; kind = "Sandbox" };
  metadata = record {
    name = o.name;
    version = "";
    labels = ("blueprint", bp.metadata.name) ∷ [];
    created_at = t;
    updated_at = t;
  };
  spec = record {
    blueprint_ref = bp.metadata.name;
    blueprint_path = o.blueprint_path;
    resources = bp.spec.resources;
    workspace = workspace_of o bp.spec.workspace;
    team = o.team;
    priority = pos 0;
  };
  status = record {
    state = creating;
    runtime_id = "";
    ip = "";
    started_at = none;
    ready_at = none;
    stopped_at = none;
    message = "";
    probe_error = "";
  };
}

abbrev pub failed : Sandbox → String → Sandbox
failed sb text = record sb { status = record sb.status { state = error; message = text } }

abbrev ip_of : String → Result Info → String
ip_of ip (ok info) = info.ip
ip_of ip (err e) = ip

abbrev pub launched : Sandbox → String → ℕ → String → Sandbox
launched sb id t ip = record sb {
  status = record sb.status { state = running; runtime_id = id; started_at = some t; ip = ip };
  metadata = record sb.metadata { updated_at = t };
}

abbrev pub ready_at : Sandbox → ℕ → Sandbox
ready_at sb t = record sb { status = record sb.status { state = ready; ready_at = some t } }
