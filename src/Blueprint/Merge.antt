-- ===== src/Blueprint/Merge.antt =====
-- mergeBlueprints of pkg/blueprint/parser.go.
use sandboxmatrix.Base.{
  String, Bool, not, ◌||◌, Option, none, some, List, [], ◌∷◌, ◌++◌, str_eq, if◌then◌else◌,
}
use sandboxmatrix.Base.Dict.{Dict, insert}
use sandboxmatrix.Api.{Blueprint, BlueprintSpec, Resources, WorkspaceSpec, NetworkSpec}

-- if child != "" { result = child }
abbrev pub set_over : String → String → String
set_over parent child = if str_eq child "" then parent else child

abbrev pub or_parent {ℓ} : {A : Type ℓ} → Option A → Option A → Option A
or_parent parent none = parent
or_parent parent (some a) = some a

abbrev pub is_empty {ℓ} : {A : Type ℓ} → List A → Bool
is_empty [] = Bool.true
is_empty (x ∷ xs) = Bool.false

-- for k, v := range child { result[k] = v }
unfoldable pub assign_all : Dict String → Dict String → Dict String
assign_all [] d = d
assign_all ((k, v) ∷ e) d = assign_all e (insert k v d)

unfoldable pub merge_resources : Resources → Resources → Resources
merge_resources parent child = record {
  cpu = set_over parent.cpu child.cpu;
  memory = set_over parent.memory child.memory;
  disk = set_over parent.disk child.disk;
  gpu = or_parent parent.gpu child.gpu;
}

unfoldable pub merge_workspace : WorkspaceSpec → WorkspaceSpec → WorkspaceSpec
merge_workspace parent child = if str_eq child.mount_path "" then parent else child

unfoldable pub merge_network : NetworkSpec → NetworkSpec → NetworkSpec
merge_network parent child =
    if not (str_eq child.policy "") || not (is_empty child.expose) then child else parent

unfoldable pub merge_spec : BlueprintSpec → BlueprintSpec → BlueprintSpec
merge_spec parent child = record {
  extends = "";
  base = set_over parent.base child.base;
  runtime = set_over parent.runtime child.runtime;
  resources = merge_resources parent.resources child.resources;
  env = assign_all child.env parent.env;
  secrets = parent.secrets ++ child.secrets;
  setup = parent.setup ++ child.setup;
  toolchains = parent.toolchains ++ child.toolchains;
  workspace = merge_workspace parent.workspace child.workspace;
  network = merge_network parent.network child.network;
  devices = parent.devices ++ child.devices;
  readiness_probe = or_parent parent.readiness_probe child.readiness_probe;
}

-- The type header is the parent's, the metadata the child's.
unfoldable pub merge_blueprints : Blueprint → Blueprint → Blueprint
merge_blueprints parent child = record parent {
  metadata = child.metadata;
  spec = merge_spec parent.spec child.spec;
}
