-- ===== src/Pool/Overfull.antt =====
-- One schedule of Claim, Release and fillPool: Release does not count the container being made.
use sandboxmatrix.Base.{ℕ, ◌<◌, String, ◌≡◌, inl, refl, false, true, some, [], ◌∷◌, arith}
use sandboxmatrix.Pool.{BlueprintPool, count_claim, release_into, begin_fill, end_fill}
use sandboxmatrix.Pool.Interleaving.{Steps, here, next, claims_new, releases, begins, ends}

-- The pool after the schedule: begin a fill, claim a container made on demand, release it, end the fill.
abbrev pub overfull : ℕ → String → String → BlueprintPool → BlueprintPool
overfull t id made bp =
    end_fill (some made) (release_into id (count_claim t (record bp { creating = 1 }))).1

-- From any empty pool of maximum size 1 that wants a warm container, there is an interleaving of
-- one fill, one claim that finds the pool empty, and one release, which ends with two warm
-- containers.
pub overfull_reachable :
    (bp : BlueprintPool) (t : ℕ) (id made : String)
    → bp.ready ≡ []
    → bp.creating ≡ 0
    → bp.in_use ≡ 0
    → bp.max_size ≡ 1
    → 0 < bp.min_ready
    → Steps true false bp (overfull t id made bp) × ((overfull t id made bp).ready ≡ id ∷ made ∷ [])
unfolding release_into begin_fill end_fill count_claim
overfull_reachable bp t id made r c u m w =
    let filling : BlueprintPool = record bp { creating = 1 } in
    (
      next
          (next
            (next (next here (begins {bp' = filling} (ground arith))) (claims_new t filling refl))
            (releases id (count_claim t filling) (inl (omega arith))))
          (ends (some made) _ (ground arith)),
      ground arith,
    )
