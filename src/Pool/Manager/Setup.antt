-- ===== src/Pool/Manager/Setup.antt =====
-- Configure and Drain.
use sandboxmatrix.Base.{
  ◌≤◌, String, ◌≡◌, ◌≢◌, ◌⊎◌, some, [], ◌∷◌, map, arith, str_eq, eq_iff, if◌then◌else◌,
}
use sandboxmatrix.Base.Dict.{Dict, lookup, lookup-insert}
use sandboxmatrix.Base.Int.{to_ℕ, pos}
use sandboxmatrix.Base.Action.{ok}
use sandboxmatrix.Api.{Blueprint}
use sandboxmatrix.Blueprint.{validate_file}
use sandboxmatrix.Blueprint.Check.{IsWellFormed}
use sandboxmatrix.Blueprint.Accepted.{validate_file_accepts}
use sandboxmatrix.Pool.{BlueprintPool}
use sandboxmatrix.Pool.Manager.{Pool, Config, Env, configure, drain, emptied, new_pool}

lookup-emptied :
    (path : String) (d : Dict BlueprintPool) (bp : BlueprintPool)
    → lookup path d ≡ some bp
    → lookup path (map emptied d) ≡ some (record bp { ready = [] })
unfolding lookup
lookup-emptied path [] bp h = cc
lookup-emptied path ((j, b) ∷ d) bp h = ground (arith, lookup-emptied path d bp)

module _ {W B : Type 0} (env : Env W B) where
  -- Drain leaves every configured pool in place, with no container ready and nothing else changed.
  pub drain_empties :
      (p : Pool W) (path : String) (bp : BlueprintPool)
      → lookup path p.pools ≡ some bp
      → lookup path (drain env p).1.pools ≡ some (record bp { ready = [] })
  unfolding drain
  drain_empties p path bp h = lookup-emptied path p.pools bp h

  -- A Configure that succeeds was given a path, a minimum and a maximum that are not negative,
  -- and a minimum within any positive maximum; the blueprint is well formed, and the new pool
  -- takes its name and image, the two numbers, and no containers, while the pools of other paths
  -- stay.
  pub configure_accepts :
      (cfg : Config) (p : Pool W)
      → (configure env cfg p).0 ≡ ok tt
      → (cfg.blueprint_path ≢ "")
        × (cfg.min_ready ≡ pos (to_ℕ cfg.min_ready))
        × (cfg.max_size ≡ pos (to_ℕ cfg.max_size))
        × ((to_ℕ cfg.max_size ≡ 0) ⊎ (to_ℕ cfg.min_ready ≤ to_ℕ cfg.max_size))
        × ((bp : Blueprint) × IsWellFormed bp
            × ((path : String)
                → lookup path (configure env cfg p).1.pools ≡ (
                    if str_eq cfg.blueprint_path path
                    then some (new_pool cfg bp)
                    else lookup path p.pools)))
  unfolding configure
  configure_accepts cfg p h =
      let quiet : (validate_file env.files cfg.blueprint_path).1 ≡ [] = ground arith in
      let (bp, returned, well, _, _, _) =
        validate_file_accepts env.files cfg.blueprint_path quiet in
      (
        ground (arith, eq_iff cfg.blueprint_path ""),
        ground arith,
        ground arith,
        ground arith,
        (
          bp,
          well,
          λ path. ground (
            arith,
            quiet,
            returned,
            lookup-insert cfg.blueprint_path path (new_pool cfg bp) p.pools,
          ),
        ),
      )
