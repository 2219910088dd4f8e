-- ===== src/Blueprint.antt =====
-- pkg/blueprint/parser.go: reading a blueprint file, resolving `extends`, and validation. The modules
-- Merge, Validate and File define it; the theorems are in Inherit, Chain, Check and
-- Accepted.
mod Merge
mod Validate
mod File
pub mod Inherit
pub mod Chain
pub mod Check
pub mod Accepted
pub use File.{Files}
unfoldable pub use Merge.{merge_blueprints, assign_all}
unfoldable pub use Validate.{validate, with_defaults}
unfoldable pub use File.{
  validate_path, parent_path, read_blueprint, parse_levels, parse_file, validate_file,
  max_extends_depth,
}
