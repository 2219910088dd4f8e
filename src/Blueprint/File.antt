-- ===== src/Blueprint/File.antt =====
-- ParseFile and ValidateFile of pkg/blueprint/parser.go.
use sandboxmatrix.Base.{ℕ, zero, suc, String, Bool, List, [], ◌∷◌, str_eq, if◌then◌else◌}
use sandboxmatrix.Base.Action.{Error, Result, message, quoted, ok, err, wrapped}
use sandboxmatrix.Api.{Blueprint}
use sandboxmatrix.Blueprint.Merge.{merge_blueprints}
use sandboxmatrix.Blueprint.Validate.{validate, with_defaults}

-- What the parser calls of os, path/filepath, strings and yaml, over the type of file contents.
pub record Files (B : Type 0) : Type 0 where
  pub read_file : String → Result B
  pub unmarshal : B → Result Blueprint
  pub clean : String → String
  pub is_abs : String → Bool
  pub dir : String → String
  pub join : String → String → String
  pub contains : String → String → Bool

abbrev pub max_extends_depth : ℕ
max_extends_depth = 5

infixl 5 ◌>>=◌
abbrev ◌>>=◌ : {A C : Type 0} → Result A → (A → Result C) → Result C
ok a >>= k = k a
err e >>= k = err e

module _ {B : Type 0} (f : Files B) where
  unfoldable pub validate_path : String → Result (Unit {0})
  validate_path path =
      if f.contains (f.clean path) ".."
      then err (quoted "path traversal not allowed" path)
      else ok tt

  unfoldable pub parent_path : String → String → String
  parent_path extends child = if f.is_abs extends then extends else f.join (f.dir child) extends

  unfoldable pub read_blueprint : String → Result Blueprint
  unfolding validate_path
  read_blueprint path = do
    u ← validate_path path
    data' ← wrapped "read blueprint file" (f.read_file path)
    wrapped "parse blueprint YAML" (f.unmarshal data')

  -- parseFileWithDepth with resolveExtends in it. `left` is max_extends_depth - depth: at 0 the test
  -- `depth >= maxExtendsDepth` stops a chain of parents.
  unfoldable pub parse_levels : ℕ → String → Result Blueprint
  unfolding read_blueprint parent_path merge_blueprints
  parse_levels zero path = do
    bp ← read_blueprint path
    if str_eq bp.spec.extends "" then ok bp else err (message "extends depth exceeds maximum")
  parse_levels (suc left) path = do
    bp ← read_blueprint path
    let parent = parse_levels left (parent_path bp.spec.extends path)
    if str_eq bp.spec.extends ""
        then ok bp
        else (wrapped "resolve extends" parent >>= λ p. ok (merge_blueprints p bp))

  unfoldable pub parse_file : String → Result Blueprint
  unfolding parse_levels
  parse_file path = parse_levels max_extends_depth path

  abbrev checked : Result Blueprint → Result Blueprint × List Error
  checked (err e) = (err e, e ∷ [])
  checked (ok bp) = (ok (with_defaults bp), validate bp)

  -- The blueprint, where there is one, and the errors.
  unfoldable pub validate_file : String → Result Blueprint × List Error
  unfolding validate_path parse_file validate with_defaults
  validate_file path = elim (validate_path path) [
    | err e ↦ (err e, e ∷ [])
    | ok u ↦ checked (parse_file path)
  ]
