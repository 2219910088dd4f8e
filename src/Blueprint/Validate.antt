-- ===== src/Blueprint/Validate.antt =====
-- Validate of pkg/blueprint/parser.go. It returns its errors and sets a default in the blueprint.
use sandboxmatrix.Base.{
  String, Bool, not, Option, none, some, List, [], ◌∷◌, ◌++◌, str_eq, if◌then◌else◌,
}
use sandboxmatrix.Base.Int.{is_pos, is_zero}
use sandboxmatrix.Base.Action.{Error, message, quoted}
use sandboxmatrix.Api.{Blueprint, GpuSpec, ProbeConfig, DeviceMapping}
use sandboxmatrix.Blueprint.Merge.{is_empty}

-- if bad { errs = append(errs, e) }
abbrev pub error_if : Bool → Error → List Error
error_if b e = if b then e ∷ [] else []

abbrev pub expected_api_version : String
expected_api_version = "smx/v1alpha1"

abbrev pub expected_kind : String
expected_kind = "Blueprint"

unfoldable pub gpu_errors : Option GpuSpec → List Error
gpu_errors none = []
gpu_errors (some g) =
    error_if (not (is_pos g.count)) (message "spec.resources.gpu.count must be greater than 0")

unfoldable pub device_errors : List DeviceMapping → List Error
device_errors [] = []
device_errors (d ∷ ds) =
    error_if (str_eq d.host_path "") (message "spec.devices: hostPath is required")
    ++ device_errors ds

unfoldable pub probe_errors : Option ProbeConfig → List Error
probe_errors none = []
probe_errors (some p) =
    if str_eq p.type "exec"
    then error_if (is_empty p.command) (message "exec probe requires a command")
    else if str_eq p.type "http"
    then error_if (is_zero p.port) (message "http probe requires a port")
    else if str_eq p.type "tcp"
    then error_if (is_zero p.port) (message "tcp probe requires a port")
    else if str_eq p.type ""
    then message "spec.readinessProbe.type is required" ∷ []
    else message "spec.readinessProbe.type must be exec, http, or tcp" ∷ []

unfoldable pub header_errors : Blueprint → List Error
header_errors bp =
    error_if (not (str_eq bp.type_meta.api_version expected_api_version))
      (quoted "apiVersion must be smx/v1alpha1" bp.type_meta.api_version)
    ++ error_if (not (str_eq bp.type_meta.kind expected_kind))
        (quoted "kind must be Blueprint" bp.type_meta.kind)
    ++ error_if (str_eq bp.metadata.name "") (message "metadata.name is required")
    ++ error_if (str_eq bp.spec.base "") (message "spec.base is required")
    ++ error_if (str_eq bp.spec.runtime "") (message "spec.runtime is required")
    ++ error_if (str_eq bp.spec.runtime "firecracker")
        (message "spec.runtime: firecracker is a stub and not yet implemented")

unfoldable pub validate : Blueprint → List Error
unfolding header_errors gpu_errors device_errors probe_errors
validate bp =
    header_errors bp
    ++ gpu_errors bp.spec.resources.gpu
    ++ device_errors bp.spec.devices
    ++ probe_errors bp.spec.readiness_probe

abbrev pub default_gpu : Option GpuSpec → Option GpuSpec
default_gpu none = none
default_gpu (some g) = some (if str_eq g.driver "" then record g { driver = "nvidia" } else g)

-- What Validate leaves in the blueprint that it is given: an empty GPU driver becomes "nvidia".
unfoldable pub with_defaults : Blueprint → Blueprint
with_defaults bp = record bp {
  spec = record bp.spec {
    resources = record bp.spec.resources { gpu = default_gpu bp.spec.resources.gpu };
  };
}
