-- ===== src/Tests/Blueprints.antt =====
-- A blueprint, two file systems, and what the parser makes of them.
use sandboxmatrix.Base.{String, ◌≡◌, ◌≢◌, ◌↔◌, refl, false, none, [], ◌∷◌, arith, eq_iff}
use sandboxmatrix.Base.Dict.{Dict, lookup}
use sandboxmatrix.Base.Action.{Error, ok, err}
use sandboxmatrix.Api.{Blueprint, BlueprintSpec}
use sandboxmatrix.Blueprint.{
  Files, validate, validate_path, validate_file, parse_file, parse_levels, read_blueprint,
  parent_path,
}
use sandboxmatrix.Blueprint.Check.{IsWellFormed, validate-IsWellFormed}
use sandboxmatrix.Blueprint.Chain.{Inherits, resolved, resolved-Inherits}
use sandboxmatrix.Blueprint.Inherit.{parse_levels_cycle}
use sandboxmatrix.Blueprint.Accepted.{validate_file_accepts}
use sandboxmatrix.Tests.Fixtures.{no_resources, no_workspace}

abbrev pub spec_of : String → Dict String → BlueprintSpec
spec_of extends env = record {
  extends = extends;
  base = "python:3";
  runtime = "docker";
  resources = no_resources;
  env = env;
  secrets = [];
  setup = [];
  toolchains = [];
  workspace = no_workspace;
  network = record { expose = []; policy = ""; allow_dns = false };
  devices = [];
  readiness_probe = none;
}

abbrev pub python : String → Dict String → Blueprint
python extends env = record {
  type_meta = record { api_version = "smx/v1alpha1"; kind = "Blueprint" };
  metadata = record { name = "python"; version = ""; labels = []; created_at = 0; updated_at = 0 };
  spec = spec_of extends env;
}

-- Every path holds the same blueprint.
abbrev pub files_with : Blueprint → Files Blueprint
files_with bp = record {
  read_file = λ path. ok bp;
  unmarshal = λ b. ok b;
  clean = λ path. path;
  is_abs = λ path. false;
  dir = λ path. ".";
  join = λ d path. path;
  contains = λ s t. false;
}

validate_example : (validate (python "" []) ≡ []) ↔ IsWellFormed (python "" [])
validate_example = validate-IsWellFormed (python "" [])

validate_file_accepts_example :
    (bp : Blueprint) × ((validate_file (files_with (python "" [])) "a.yaml").0 ≡ ok bp)
    × IsWellFormed bp
    × (bp.spec.extends ≡ "")
unfolding validate_file validate_path parse_file parse_levels read_blueprint validate
validate_file_accepts_example =
    let (bp, e, well, root, _, _) =
      validate_file_accepts (files_with (python "" [])) "a.yaml" refl in
    (bp, e, well, root)

own_parent :
    (path : String) (bp : Blueprint)
    → path ≡ "a.yaml"
    → read_blueprint (files_with (python "a.yaml" [])) path ≡ ok bp
    → (bp.spec.extends ≢ "")
      × (parent_path (files_with (python "a.yaml" [])) bp.spec.extends path ≡ "a.yaml")
unfolding read_blueprint validate_path parent_path
own_parent path bp p h = ((λ e. ground (arith, eq_iff "a.yaml" "")), ground arith)

parse_levels_cycle_example :
    (e : Error) × (parse_levels (files_with (python "a.yaml" [])) 5 "a.yaml" ≡ err e)
parse_levels_cycle_example =
    parse_levels_cycle (files_with (python "a.yaml" [])) (λ path. path ≡ "a.yaml") own_parent 5
      "a.yaml" refl

resolved-Inherits_example :
    Inherits
      (python "p" (("A", "2") ∷ []))
      (python "g" (("A", "1") ∷ []) ∷ python "" [] ∷ [])
      (resolved (python "p" (("A", "2") ∷ [])) (python "g" (("A", "1") ∷ []) ∷ python "" [] ∷ []))
unfolding lookup
resolved-Inherits_example =
    resolved-Inherits (python "p" (("A", "2") ∷ []))
      (python "g" (("A", "1") ∷ []) ∷ python "" [] ∷ []) ((refl, tt), ((refl, tt), (tt, tt)))
