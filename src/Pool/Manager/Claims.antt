-- ===== src/Pool/Manager/Claims.antt =====
-- Claim and Release of one pool, with no other goroutine between them.
use sandboxmatrix.Base.{
  ℕ, ◌+◌, ◌-◌, String, ◌≡◌, refl, ap, sym, some, List, [], ◌∷◌, ◌++◌, arith, length, length-append,
  true,
}
use sandboxmatrix.Base.Dict.{lookup, insert, lookup-insert_self}
use sandboxmatrix.Base.Action.{ok}
use sandboxmatrix.Pool.{BlueprintPool, pop_last, claim_ready, release_into, count_claim}
use sandboxmatrix.Pool.Interleaving.{IsWithin}
use sandboxmatrix.Pool.Manager.{Pool, Env, claim, release}

pop_last-snoc : (xs : List String) (y : String) → pop_last (xs ++ y ∷ []) ≡ some (y, xs)
unfolding pop_last
pop_last-snoc [] y = refl
pop_last-snoc (x ∷ xs) y = rw (pop_last-snoc xs y)

abbrev claimed : ℕ → List String → BlueprintPool → BlueprintPool
claimed t rest bp = record (count_claim t bp) { ready = rest; notify = true }

module _ {W B : Type 0} (env : Env W B) where
  claim_lem :
      (path : String) (p : Pool W) (bp : BlueprintPool) (rest : List String) (id : String)
      → lookup path p.pools ≡ some bp
      → bp.ready ≡ rest ++ id ∷ []
      → claim env path p ≡ (
        ok id,
        record p { pools = insert path (claimed (env.since p.world p.world) rest bp) p.pools },
      )
  unfolding claim claim_ready count_claim
  claim_lem path p bp rest id h e =
      let r : claim_ready (env.since p.world p.world) bp
          ≡ some (id, claimed (env.since p.world p.world) rest bp) =
        rw (e, pop_last-snoc rest id, claim_ready) in
      rw (h, r, claim)

  release_kept :
      (id path : String) (p : Pool W) (bp bp' : BlueprintPool)
      → lookup path p.pools ≡ some bp
      → release_into id bp ≡ (true, bp')
      → release env id path p ≡ (ok tt, record p { pools = insert path bp' p.pools })
  unfolding release
  release_kept id path p bp bp' h e = rw (h, e, release)

  -- A warm claim gives the container that became ready last, and leaves the others ready.
  pub claim_warm :
      (path : String) (p : Pool W) (bp : BlueprintPool) (rest : List String) (id : String)
      → lookup path p.pools ≡ some bp
      → bp.ready ≡ rest ++ id ∷ []
      → (bp' : BlueprintPool) × ((claim env path p).0 ≡ ok id)
        × (lookup path (claim env path p).1.pools ≡ some bp')
        × (bp'.ready ≡ rest)
        × (bp'.in_use ≡ bp.in_use + 1)
        × ((claim env path p).1.world ≡ p.world)
  unfolding count_claim
  claim_warm path p bp rest id h e =
      let new = claimed (env.since p.world p.world) rest bp in
      rw (claim_lem path p bp rest id h e)
        (new, refl, lookup-insert_self path new p.pools, refl, refl, refl)

  -- If a container of a pool within its maximum size is claimed warm and given back, the pool has
  -- its warm containers and its number in use again, and the runtime was not called.
  pub release-claim :
      (path : String) (p : Pool W) (bp : BlueprintPool) (rest : List String) (id : String)
      → lookup path p.pools ≡ some bp
      → bp.ready ≡ rest ++ id ∷ []
      → IsWithin bp
      → let q = release env id path (claim env path p).1 in
        (bp' : BlueprintPool) × (q.0 ≡ ok tt)
        × (lookup path q.1.pools ≡ some bp')
        × (bp'.ready ≡ bp.ready)
        × (bp'.in_use ≡ bp.in_use)
        × (q.1.world ≡ p.world)
  unfolding release release_into count_claim
  release-claim path p bp rest id h e w =
      let new = claimed (env.since p.world p.world) rest bp in
      let back : BlueprintPool = record new { ready = rest ++ id ∷ []; in_use = new.in_use - 1 } in
      let into : release_into id new ≡ (true, back) =
        ground (arith, ap length e, length-append rest (id ∷ [])) in
      let taken : Pool W = record p { pools = insert path new p.pools } in
      rw
        (
          claim_lem path p bp rest id h e,
          release_kept id path taken new back (lookup-insert_self path new p.pools) into,
        )
        (back, refl, lookup-insert_self path back _, sym e, omega arith, refl)
