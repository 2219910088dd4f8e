-- ===== src/Pool/Manager.antt =====
-- The methods of Pool in internal/pool/pool.go, over the map of pools and the container runtime.
pub mod Fill
pub mod Claims
pub mod Setup
use Prim.Native.String.{◌++◌ as str_append}
use sandboxmatrix.Base.{
  ℕ, zero, suc, ◌-◌, String, Bool, true, false, ◌&&◌, not, Option, none, some, List, [], ◌∷◌, ◌++◌,
  map, str_eq, if◌then◌else◌,
}
use sandboxmatrix.Base.Dict.{Dict, lookup, insert}
use sandboxmatrix.Base.Int.{ℤ, is_neg, is_pos, ltb_ℤ, to_ℕ}
use sandboxmatrix.Base.Action.{
  Action, Result, Error, message, quoted, wrap, ok, err, wrapped, pure, fail, reject_if, ignore,
  first_error, ◌>>=◌, ◌>>◌,
}
use sandboxmatrix.Api.{Blueprint}
use sandboxmatrix.Runtime.{Runtime, CreateConfig}
use sandboxmatrix.Blueprint.{Files, validate_file}
use sandboxmatrix.Pool.{
  BlueprintPool, count_claim, claim_ready, release_into, begin_fill, end_fill, count_created, Stats,
  stats_of,
}

pub record Pool (W : Type 0) : Type 0 where
  pub pools : Dict BlueprintPool
  pub world : W

pub record Config : Type 0 where
  pub blueprint_path : String
  pub min_ready : ℤ
  pub max_size : ℤ

-- The runtime, the file system, time.Now, the time passed since an earlier state of the host,
-- ctx.Err() != nil, and fmt.Sprintf of a container's name.
pub record Env (W B : Type 0) : Type 0 where
  pub runtime : Runtime W
  pub files : Files B
  pub clock : W → ℕ
  pub since : W → W → ℕ
  pub cancelled : W → Bool
  pub container_name : String → ℕ → String

module _ {W : Type 0} where
  abbrev pub on_world : {A : Type 0} → Action W A → Action (Pool W) A
  on_world m p = ((m p.world).0, record p { world = (m p.world).1 })

  -- A change to one pool's object, if the map has it.
  unfoldable pub change : String → (BlueprintPool → BlueprintPool) → Action (Pool W) (Unit {0})
  change path f p = elim (lookup path p.pools) [
    | none ↦ (ok tt, p)
    | some bp ↦ (ok tt, record p { pools = insert path (f bp) p.pools })
  ]

-- bp.Blueprint and the rest of a pool that Configure sets up.
abbrev pub new_pool : Config → Blueprint → BlueprintPool
new_pool cfg bp = record {
  blueprint = bp.metadata.name;
  min_ready = to_ℕ cfg.min_ready;
  max_size = to_ℕ cfg.max_size;
  ready = [];
  creating = 0;
  in_use = 0;
  total_created = 0;
  total_claims = 0;
  total_claim_ns = 0;
  image = bp.spec.base;
  blueprint_path = cfg.blueprint_path;
  notify = false;
}

-- The ready containers of all pools, in the order in which the map is visited.
unfoldable pub warm_ids : Dict BlueprintPool → List String
warm_ids [] = []
warm_ids ((path, bp) ∷ d) = bp.ready ++ warm_ids d

abbrev pub emptied : String × BlueprintPool → String × BlueprintPool
emptied (path, bp) = (path, record bp { ready = [] })

abbrev made : Result String → Option String
made (ok id) = some id
made (err e) = none

module _ {W B : Type 0} (env : Env W B) where
  abbrev install : Config → Result Blueprint × List Error → Action (Pool W) (Unit {0})
  install cfg (r, e ∷ es) p = (err (wrap "invalid blueprint" e), p)
  install cfg (err e, []) p = (err (wrap "invalid blueprint" e), p)
  install cfg (ok bp, []) p =
      (ok tt, record p { pools = insert cfg.blueprint_path (new_pool cfg bp) p.pools })

  unfoldable pub configure : Config → Action (Pool W) (Unit {0})
  configure cfg = do
    reject_if (str_eq cfg.blueprint_path "") (message "blueprint path is required")
    reject_if (is_neg cfg.min_ready) (message "min-ready must be >= 0")
    reject_if (is_neg cfg.max_size) (message "max-size must be >= 0")
    reject_if (is_pos cfg.max_size && ltb_ℤ cfg.max_size cfg.min_ready)
        (message "min-ready cannot exceed max-size")
    install cfg (validate_file env.files cfg.blueprint_path)

  unfoldable pub create_config : BlueprintPool → String → ℕ → CreateConfig
  create_config bp path t = record {
    name = env.container_name bp.blueprint t;
    image = bp.image;
    cpu = "";
    memory = "";
    disk = "";
    gpu = none;
    devices = [];
    mounts = [];
    ports = [];
    env = [];
    cmd = [];
    labels =
        ("sandboxmatrix/pool", "true")
        ∷ ("sandboxmatrix/pool-blueprint", path)
        ∷ ("sandboxmatrix/managed", "true")
        ∷ ("sandboxmatrix/name", str_append "pool-" bp.blueprint)
        ∷ [];
    network = record { mode = ""; dns = [] };
  }

  -- rt.Start with the cleanup of a container that does not start.
  abbrev start_or_destroy : String → Action W (Unit {0})
  start_or_destroy id w = elim (env.runtime.start id w).0 [
    | ok u ↦ (ok tt, (env.runtime.start id w).1)
    | err e ↦
        (err (wrap "start container" e), (env.runtime.destroy id (env.runtime.start id w).1).1)
  ]

  unfoldable pub create_warm_container : BlueprintPool → String → Action (Pool W) String
  unfolding create_config change
  create_warm_container bp path p =
      (do
        id ← on_world (λ w.
            let r = env.runtime.create (create_config bp path (env.clock w)) w in
            (wrapped "create container" r.0, r.1))
        on_world (start_or_destroy id)
        change path count_created
        pure id)
        p

  abbrev claim_on_demand : W → BlueprintPool → String → Action (Pool W) String
  claim_on_demand start bp path = do
    id ← λ p. (
      wrapped "create on-demand container" (create_warm_container bp path p).0,
      (create_warm_container bp path p).1,
    )
    λ p. change path (count_claim (env.since start p.world)) p
    pure id

  -- Claim, with no other goroutine between its sections.
  unfoldable pub claim : String → Action (Pool W) String
  unfolding create_warm_container change
  claim path p = elim (lookup path p.pools) [
    | none ↦ (err (quoted "no pool configured for blueprint" path), p)
    | some bp ↦ elim (claim_ready (env.since p.world p.world) bp) [
      | some (id, bp') ↦ (ok id, record p { pools = insert path bp' p.pools })
      | none ↦ claim_on_demand p.world bp path p
    ]
  ]

  unfoldable pub release : String → String → Action (Pool W) (Unit {0})
  release id path p = elim (lookup path p.pools) [
    | none ↦ on_world (env.runtime.destroy id) p
    | some bp ↦
        let (kept, bp') = release_into id bp in
        let p' = record p { pools = insert path bp' p.pools } in
        if kept then (ok tt, p') else on_world (env.runtime.destroy id) p'
  ]

  -- The part of one fillPool round that follows bp.Creating++.
  unfoldable pub fill_round : BlueprintPool → String → Pool W → Pool W
  fill_round bp path p =
      let p1 = record p { pools = insert path bp p.pools } in
      let r = create_warm_container bp path p1 in (change path (end_fill (made r.0)) r.1).1

  -- fillPool, with no other goroutine between its sections; `none` means that the fuel ran out.
  unfoldable pub fill_pool : ℕ → String → Pool W → Option (Pool W)
  fill_pool zero path p = none
  fill_pool (suc fuel) path p = elim (env.cancelled p.world) [
    | true ↦ some p
    | false ↦ elim (lookup path p.pools) [
      | none ↦ some p
      | some bp ↦ elim (begin_fill bp) [
        | none ↦ some p
        | some bp' ↦ fill_pool fuel path (fill_round bp' path p)
      ]
    ]
  ]

  unfoldable pub stats : Pool W → List (String × Stats)
  stats p = map (λ (e : String × BlueprintPool). (e.0, stats_of e.0 e.1)) p.pools

  -- runtime.Destroy of each container; the first error is kept.
  unfoldable pub destroy_all : List String → Option Error → W → Option Error × W
  destroy_all [] first w = (first, w)
  destroy_all (id ∷ ids) first w =
      let r = env.runtime.destroy id w in destroy_all ids (first_error first r.0) r.1

  -- Drain after the warm loops have stopped.
  unfoldable pub drain : Pool W → Option Error × Pool W
  unfolding destroy_all
  drain p =
      let r = destroy_all (warm_ids p.pools) none p.world in
      (r.0, record p { pools = map emptied p.pools; world = r.1 })
