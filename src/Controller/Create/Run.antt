-- ===== src/Controller/Create/Run.antt =====
-- The calls that Create makes, in their order.
use Prim.Native.String.{◌++◌ as str_append}
use sandboxmatrix.Base.{
  String, Bool, ◌&&◌, ◌||◌, not, Option, none, some, List, [], ◌∷◌, map, str_eq, if◌then◌else◌,
}
use sandboxmatrix.Base.Int.{is_zero}
use sandboxmatrix.Base.Action.{
  Action, Error, Result, quoted, wrap, ok, err, is_ok, pure, reject_if, ◌>>=◌, ◌>>◌,
}
use sandboxmatrix.Api.{Blueprint, Sandbox, SetupStep, ProbeConfig}
use sandboxmatrix.Runtime.{CreateConfig, ExecConfig, ExecResult}
use sandboxmatrix.Blueprint.{validate_file}
use sandboxmatrix.Controller.{System, Controller, save, on_world, wrapping}
use sandboxmatrix.Controller.Create.{
  CreateOptions, Host, build_device_config, resolve_secrets, set_all, network_mode, gpu_config,
  mounts_of, port_mapping, quota_request, new_sandbox, failed, ip_of, launched, ready_at,
}

module _ {S M N W B : Type 0} (c : Controller S M N W) (h : Host W B) where
  unfoldable pub create_config : CreateOptions → Blueprint → System S M N W → CreateConfig
  create_config o bp σ = record {
    name = str_append "smx-" o.name;
    image = elim (h.cached_image σ.world bp) [ none ↦ bp.spec.base | some tag ↦ tag ];
    cpu = bp.spec.resources.cpu;
    memory = bp.spec.resources.memory;
    disk = "";
    gpu = gpu_config bp.spec.resources.gpu;
    devices = build_device_config h σ.world bp.spec.devices;
    mounts = mounts_of o bp.spec.workspace;
    ports = map port_mapping bp.spec.network.expose;
    env = set_all o.env (resolve_secrets h σ.world bp.spec.secrets bp.spec.env);
    cmd = [];
    labels = ("sandboxmatrix/sandbox", o.name) ∷ ("sandboxmatrix/blueprint", bp.metadata.name) ∷ [];
    network = record {
      mode = network_mode o.network_name bp.spec.network.policy;
      dns = if bp.spec.network.allow_dns then "8.8.8.8" ∷ "8.8.4.4" ∷ [] else [];
    };
  }

  -- The workspace check: a relative path passes, an absolute one has one of five prefixes.
  unfoldable pub workspace_refused : String → Bool
  workspace_refused dir =
      let path = h.files.clean dir in
      not (str_eq dir "")
      && h.files.is_abs path
      && not (
          h.has_prefix path "/home/"
          || h.has_prefix path "/Users/"
          || h.has_prefix path "/tmp/"
          || h.has_prefix path "/workspace/"
          || h.has_prefix path "/opt/")

  -- Save the record, drop the error of the save, and return the one given.
  unfoldable pub give_up : Sandbox → Error → Action (System S M N W) (Unit {0})
  give_up sb e σ = (err e, (save c sb σ).1)

  abbrev pub destroyed_first : String → System S M N W → System S M N W
  destroyed_first id σ = record σ { world = (c.runtime.destroy id σ.world).1 }

  unfoldable pub start_and_track : String → Sandbox → Action (System S M N W) Sandbox
  unfolding give_up
  start_and_track id sb σ =
      let started = c.runtime.start id σ.world in
      let σ1 = record σ { world = started.1 } in
      elim started.0 [
        | err e ↦ (
          err (wrap "start runtime" e),
          (give_up (failed sb (h.text_of e)) e (destroyed_first id σ1)).1,
        )
        | ok u ↦
            let info = c.runtime.info id σ1.world in
            (
              ok (launched sb id (c.clock σ1.world) (ip_of sb.status.ip info.0)),
              record σ1 { world = info.1 },
            )
      ]

  abbrev pub sh_command : SetupStep → ExecConfig
  sh_command step = record { cmd = "sh" ∷ "-c" ∷ step.run ∷ []; env = []; dir = "" }

  -- What a setup step reports: none if it ran and returned 0.
  abbrev pub step_error : SetupStep → ExecResult × Option Error → Option Error
  step_error step (r, some e) = some (wrap "setup step failed" e)
  step_error step (r, none) =
      if is_zero r.exit_code then none else some (quoted "setup step exited with an error" step.run)

  unfoldable pub run_setup : String → Sandbox → List SetupStep → Action (System S M N W) (Unit {0})
  unfolding give_up
  run_setup id sb [] σ = (ok tt, σ)
  run_setup id sb (step ∷ steps) σ =
      let r = c.runtime.exec id (sh_command step) σ.world in
      let σ1 = record σ { world = r.1 } in
      elim (step_error step r.0) [
        | none ↦ run_setup id sb steps σ1
        | some e ↦ give_up (failed sb (h.text_of e)) e (destroyed_first id σ1)
      ]

  abbrev pub probe_failed : Sandbox → Error → Sandbox
  probe_failed sb e =
      let text = h.text_of e in
      let new = failed sb (str_append "readiness probe failed: " text) in
      record new { status = record new.status { probe_error = text } }

  -- The readiness probe, after an attempt to save the running sandbox. Beside the error of a failed probe
  -- the source also returns the sandbox, which is left out.
  unfoldable pub run_probe : String → Sandbox → Option ProbeConfig → Action (System S M N W) Sandbox
  unfolding give_up
  run_probe id sb none σ = (ok sb, σ)
  run_probe id sb (some p) σ =
      let σ1 = (save c sb σ).1 in
      let waited = h.wait_for_ready id sb.status.ip p σ1.world in
      let σ2 = record σ1 { world = waited.1 } in
      elim waited.0 [
        | ok u ↦ (ok (ready_at sb (c.clock σ2.world)), σ2)
        | err e ↦ (
          err (wrap "readiness probe failed" e),
          (give_up (probe_failed sb e) e (destroyed_first id σ2)).1,
        )
      ]

  abbrev pub steps_of : Option String → List SetupStep → List SetupStep
  steps_of none steps = steps
  steps_of (some tag) steps = []

  abbrev pub after_create :
      Blueprint → Option String → Sandbox → String → Action (System S M N W) Sandbox
  after_create bp cached sb id = do
    sb1 ← start_and_track id sb
    run_setup id sb1 (steps_of cached bp.spec.setup)
    sb2 ← run_probe id sb1 bp.spec.readiness_probe
    wrapping "save state" (save c sb2)
    pure sb2

  -- From the call of the runtime's Create on.
  unfoldable pub deploy :
      CreateConfig → Blueprint → Option String → Sandbox → Action (System S M N W) Sandbox
  unfolding give_up start_and_track run_setup run_probe
  deploy cfg bp cached sb σ =
      let made = c.runtime.create cfg σ.world in
      let σ1 = record σ { world = made.1 } in
      elim made.0 [
        | err e ↦ (err (wrap "create runtime" e), (give_up (failed sb (h.text_of e)) e σ1).1)
        | ok id ↦ after_create bp cached sb id σ1
      ]

  unfoldable pub check_quota : String → Blueprint → Action (System S M N W) (Unit {0})
  check_quota team bp = elim h.check_quota [
    | none ↦ (λ σ. (ok tt, σ))
    | some check ↦
        if str_eq team ""
        then (λ σ. (ok tt, σ))
        else wrapping "quota check" (on_world (check team (quota_request bp)))
  ]

  -- From the blueprint on; the configuration is built before the record is saved.
  unfoldable pub create_with : CreateOptions → Blueprint → Action (System S M N W) Sandbox
  unfolding check_quota workspace_refused deploy create_config
  create_with o bp = do
    check_quota o.team bp
    reject_if (workspace_refused o.workspace_dir)
        (quoted "workspace path is not in an allowed directory" o.workspace_dir)
    λ σ.
        (do
          wrapping "save state" (save c (new_sandbox o bp (c.clock σ.world)))
          deploy (create_config o bp σ) bp (h.cached_image σ.world bp)
              (new_sandbox o bp (c.clock σ.world)))
          σ

  abbrev pub create_from :
      CreateOptions → Result Blueprint × List Error → Action (System S M N W) Sandbox
  create_from o (r, e ∷ es) σ = (err (wrap "invalid blueprint" e), σ)
  create_from o (err e, []) σ = (err (wrap "invalid blueprint" e), σ)
  create_from o (ok bp, []) σ = create_with o bp σ

  unfoldable pub create : CreateOptions → Action (System S M N W) Sandbox
  unfolding create_with
  create o σ =
      if is_ok (c.store.get o.name σ.sandboxes)
      then (err (quoted "sandbox already exists" o.name), σ)
      else create_from o (validate_file h.files o.blueprint_path) σ
