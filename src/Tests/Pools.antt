-- ===== src/Tests/Pools.antt =====
-- A pool with two warm containers, on a runtime that works and on one that does not.
use sandboxmatrix.Base.{ℕ, ◌≤◌, String, ◌≡◌, inl, refl, false, some, List, [], ◌∷◌, arith, length}
use sandboxmatrix.Base.Dict.{lookup}
use sandboxmatrix.Base.Int.{pos}
use sandboxmatrix.Api.{Blueprint}
use sandboxmatrix.Pool.{BlueprintPool, release_into}
use sandboxmatrix.Pool.Interleaving.{Steps, here, next, releases, IsWithin, Steps-IsWithin}
use sandboxmatrix.Pool.Overfull.{overfull, overfull_reachable}
use sandboxmatrix.Pool.Manager.{Pool, Config, Env, fill_pool}
use sandboxmatrix.Pool.Manager.Fill.{IsFilled, RuntimeWorks, fill_ends}
use sandboxmatrix.Tests.Fixtures.{host}
use sandboxmatrix.Tests.Blueprints.{python, files_with}

abbrev env : Env ℕ Blueprint
env = record {
  runtime = host [];
  files = files_with (python "" []);
  clock = λ w. w;
  since = λ v w. 1;
  cancelled = λ w. false;
  container_name = λ b t. b;
}

abbrev pool : List String → ℕ → BlueprintPool
pool ready in_use = record {
  blueprint = "python";
  min_ready = 3;
  max_size = 4;
  ready = ready;
  creating = 0;
  in_use = in_use;
  total_created = 0;
  total_claims = 0;
  total_claim_ns = 0;
  image = "python:3";
  blueprint_path = "a.yaml";
  notify = false;
}

abbrev pools : Pool ℕ
pools = record { pools = ("a.yaml", pool ("c1" ∷ "c2" ∷ []) 1) ∷ []; world = 0 }

one_release : Steps false false (pool ("c1" ∷ []) 1) (pool ("c1" ∷ "c2" ∷ []) 0)
unfolding release_into
one_release = next here (releases "c2" (pool ("c1" ∷ []) 1) (inl (omega arith)))

Steps-IsWithin_example : IsWithin (pool ("c1" ∷ "c2" ∷ []) 0)
Steps-IsWithin_example = Steps-IsWithin one_release (omega arith) (omega arith)

overfull_reachable_example :
    (overfull 1 "c1" "c2" (record (pool [] 0) { max_size = 1; min_ready = 1 })).ready
    ≡ "c1" ∷ "c2" ∷ []
overfull_reachable_example =
    (overfull_reachable (record (pool [] 0) { max_size = 1; min_ready = 1 }) 1 "c1" "c2" refl refl
      refl refl (omega arith)).1

env-RuntimeWorks : RuntimeWorks env
env-RuntimeWorks = record {
  creates = λ cfg w. ("c2", refl);
  starts = λ id w. refl;
  not_cancelled = λ w. refl;
}

fill_ends_example :
    (p' : Pool ℕ) × (bp' : BlueprintPool) × (fill_pool env 2 "a.yaml" pools ≡ some p')
    × (lookup "a.yaml" p'.pools ≡ some bp')
    × IsFilled bp'
    × (2 ≤ length bp'.ready)
unfolding lookup
fill_ends_example =
    fill_ends env env-RuntimeWorks 2 "a.yaml" pools (pool ("c1" ∷ "c2" ∷ []) 1) refl (omega arith)

abbrev config : Config
config = record { blueprint_path = "b.yaml"; min_ready = pos 1; max_size = pos 2 }
