-- ===== src/Blueprint/Accepted.antt =====
-- What ValidateFile lets through.
use sandboxmatrix.Base.{String, ◌≡◌, ◌≢◌, true, Option, none, some, [], inl, inr, arith, eq_iff}
use sandboxmatrix.Base.Int.{is_pos}
use sandboxmatrix.Base.Action.{ok, Result-cases}
use sandboxmatrix.Api.{Blueprint, GpuSpec}
use sandboxmatrix.Blueprint.Validate.{with_defaults, default_gpu}
use sandboxmatrix.Blueprint.File.{
  Files, validate_path, parse_file, max_extends_depth, validate_file,
}
use sandboxmatrix.Blueprint.Inherit.{parse_levels_resolves}
use sandboxmatrix.Blueprint.Check.{IsWellFormed, IfSome, validate-IsWellFormed}

default_gpu_counts :
    (o : Option GpuSpec)
    → IfSome (λ g. is_pos g.count ≡ true) o
    → IfSome (λ g. is_pos g.count ≡ true) (default_gpu o)
default_gpu_counts none h = tt
default_gpu_counts (some g) h = ground arith

with_defaults-IsWellFormed : (bp : Blueprint) → IsWellFormed bp → IsWellFormed (with_defaults bp)
unfolding with_defaults
with_defaults-IsWellFormed bp v = record {
  version = v.version;
  kind = v.kind;
  named = v.named;
  based = v.based;
  runs_on = v.runs_on;
  not_stub = v.not_stub;
  gpus = default_gpu_counts bp.spec.resources.gpu v.gpus;
  devices = v.devices;
  probe = v.probe;
}

default_driver : (o : Option GpuSpec) (g : GpuSpec) → default_gpu o ≡ some g → g.driver ≢ ""
default_driver none g h e = cc
default_driver (some o) g h e = ground (arith, eq_iff o.driver "", eq_iff "nvidia" "")

-- When ValidateFile reports no error it returns a blueprint that is well formed, has no parent left
-- to resolve, and names a driver for its GPUs if it asks for any; the path passed the traversal
-- check.
pub validate_file_accepts :
    {B : Type 0} (f : Files B) (path : String)
    → (validate_file f path).1 ≡ []
    → (bp : Blueprint) × ((validate_file f path).0 ≡ ok bp)
      × IsWellFormed bp
      × (bp.spec.extends ≡ "")
      × ((g : GpuSpec) → bp.spec.resources.gpu ≡ some g → g.driver ≢ "")
      × (validate_path f path ≡ ok tt)
unfolding validate_file parse_file with_defaults
validate_file_accepts f path h = elim (Result-cases (validate_path f path)) [
  | inr (x, e) ↦ absurd (ground arith)
  | inl (u, e) ↦ elim (Result-cases (parse_file f path)) [
    | inr (x, g) ↦ absurd (ground arith)
    | inl (bp, g) ↦ (
      with_defaults bp,
      ground arith,
      with_defaults-IsWellFormed bp ((validate-IsWellFormed bp).0 (ground arith)),
      parse_levels_resolves f max_extends_depth path bp g,
      default_driver bp.spec.resources.gpu,
      e,
    )
  ]
]
