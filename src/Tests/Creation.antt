-- ===== src/Tests/Creation.antt =====
-- Create on a host where every call succeeds.
use sandboxmatrix.Base.{ℕ, refl, false, none, List, [], ◌∷◌}
use sandboxmatrix.Base.Dict.{lookup, insert}
use sandboxmatrix.Base.Action.{ok, err, message}
use sandboxmatrix.State.Memory.Laws.{memory-StoreLaws}
use sandboxmatrix.Controller.Matrices.Formation.{new_matrix, form_members, create_matrix}
use sandboxmatrix.Controller.Matrices.Formation.Formed.{Formed, create_matrix_succeeds}
use sandboxmatrix.Api.{MatrixMember, Blueprint, Sandbox, running}
use sandboxmatrix.State.Memory.{memory}
use sandboxmatrix.Blueprint.{
  validate, validate_path, validate_file, parse_file, parse_levels, read_blueprint, with_defaults,
}
use sandboxmatrix.Controller.Create.{CreateOptions, Host, new_sandbox, launched}
use sandboxmatrix.Controller.Create.Run.{
  check_quota, workspace_refused, create_config, start_and_track, run_setup, run_probe, deploy,
  create_with, create,
}
use sandboxmatrix.Controller.Create.Succeeds.{Deployed, create_succeeds}
use sandboxmatrix.Controller.Create.Frame.{Keeps}
use sandboxmatrix.Controller.Restore.{restored_sandbox, restore_config, restore}
use sandboxmatrix.Controller.Restore.Restored.{restore_succeeds}
use sandboxmatrix.Tests.Fixtures.{web, matrix_name, controller, fleet, sandbox_laws}
use sandboxmatrix.Tests.Blueprints.{python, files_with}

abbrev host_env : Host ℕ Blueprint
host_env = record {
  files = files_with (python "" []);
  is_missing = λ w path. false;
  getenv = λ w name. "";
  read_trimmed = λ w path. err (message "no file");
  has_prefix = λ s t. false;
  trim_prefix = λ s t. s;
  check_quota = none;
  cached_image = λ w bp. none;
  wait_for_ready = λ id ip p w. (ok tt, w);
  text_of = λ e. "";
}

abbrev options : CreateOptions
options = record {
  name = "db";
  blueprint_path = "a.yaml";
  workspace_dir = "";
  network_name = "";
  env = [];
  team = "";
}

-- The record that Create returns: created at the tick 7, started at 9.
abbrev database : Sandbox
database = launched (new_sandbox options (python "" []) 7) "c2" 9 ""

create_succeeds_example :
    Deployed
      (controller [])
      "db"
      database
      (create (controller []) host_env options (fleet running [])).1
unfolding create create_with deploy start_and_track run_setup run_probe check_quota
    workspace_refused create_config validate_file validate_path parse_file parse_levels
    read_blueprint validate with_defaults memory lookup insert
create_succeeds_example =
    (create_succeeds (controller []) host_env sandbox_laws options database (fleet running [])
      refl).2

abbrev pair : List MatrixMember
pair =
    record { name = "web"; blueprint = "a.yaml" }
    ∷ record { name = "db"; blueprint = "a.yaml" }
    ∷ []

create_matrix_succeeds_example :
    Formed
      (controller [])
      host_env
      sandbox_laws
      (memory "matrix not found" matrix_name)
      (memory-StoreLaws "matrix not found" matrix_name)
      "n"
      ""
      pair
      (new_matrix "n" "" pair 8)
      (create_matrix (controller []) host_env "n" "" pair (fleet running [])).1
unfolding create_matrix form_members create create_with deploy start_and_track run_setup run_probe
    check_quota workspace_refused create_config validate_file validate_path parse_file parse_levels
    read_blueprint validate with_defaults memory lookup insert
create_matrix_succeeds_example =
    (create_matrix_succeeds (controller []) host_env sandbox_laws
      (memory "matrix not found" matrix_name) (memory-StoreLaws "matrix not found" matrix_name) "n"
      "" pair (fleet running []) (new_matrix "n" "" pair 8) refl refl).1

-- The copy of the sandbox m-web, made at the tick 7 and started at 9.
abbrev copy_of_web : Sandbox
copy_of_web = launched (restored_sandbox (web running) "m-web" "copy" 7) "c3" 9 ""

restore_succeeds_example :
    Keeps
      (controller [])
      "m-web"
      (fleet running [])
      (restore (controller []) host_env "m-web" "snap" "copy" (fleet running [])).1
unfolding restore restore_config start_and_track parse_file memory lookup insert
restore_succeeds_example =
    (restore_succeeds (controller []) host_env sandbox_laws "m-web" "snap" "copy" copy_of_web
      (fleet running []) "m-web" refl refl).4
