-- ===== src/Pool/Interleaving.antt =====
-- The critical sections of concurrent Claim, Release and fillPool calls on one blueprint's pool, in any
-- order. Configure, which replaces the object, is not among the steps.
use sandboxmatrix.Base.{
  ℕ, ◌+◌, ◌≤◌, ◌<◌, String, ◌≡◌, refl, ap, ◌∙◌, ◌⊎◌, Bool, true, false, Option, none, some, List,
  [], ◌∷◌, ◌++◌, arith, length, length-append, Option-cases, inl, inr,
}
use sandboxmatrix.Pool.{
  BlueprintPool, pop_last, count_claim, claim_ready, release_into, begin_fill, end_fill,
  count_created,
}

-- One section. `on_demand` allows the claims that find the pool empty and make a container of their own,
-- `unclaimed` the releases while the pool counts no container in use, as of one that it never gave out.
-- Any number of fills may be under way at a time.
pub data Step (on_demand unclaimed : Bool) : BlueprintPool → BlueprintPool → Type 0 where
  claims :
      {bp bp' : BlueprintPool} (t : ℕ) (id : String)
      → claim_ready t bp ≡ some (id, bp')
      → Step on_demand unclaimed bp bp'
  claims_new :
      (t : ℕ) (bp : BlueprintPool)
      → on_demand ≡ true
      → Step on_demand unclaimed bp (count_claim t bp)
  creates : (bp : BlueprintPool) → Step on_demand unclaimed bp (count_created bp)
  releases :
      (id : String) (bp : BlueprintPool)
      → (0 < bp.in_use) ⊎ (unclaimed ≡ true)
      → Step on_demand unclaimed bp (release_into id bp).1
  begins : {bp bp' : BlueprintPool} → begin_fill bp ≡ some bp' → Step on_demand unclaimed bp bp'
  ends :
      (o : Option String) (bp : BlueprintPool)
      → 0 < bp.creating
      → Step on_demand unclaimed bp (end_fill o bp)

pub data Steps (on_demand unclaimed : Bool) (bp : BlueprintPool) : BlueprintPool → Type 0 where
  here : Steps on_demand unclaimed bp bp
  next :
      {p q : BlueprintPool}
      → Steps on_demand unclaimed bp p
      → Step on_demand unclaimed p q
      → Steps on_demand unclaimed bp q

pop_last-none : (xs : List String) → pop_last xs ≡ none → xs ≡ []
unfolding pop_last
pop_last-none [] h = refl
pop_last-none (x ∷ xs) h = ground arith

pub pop_last-append :
    (xs : List String) (y : String) (ys : List String)
    → pop_last xs ≡ some (y, ys)
    → xs ≡ ys ++ y ∷ []
unfolding pop_last
pop_last-append [] y ys h = cc
pop_last-append (x ∷ xs) y ys h = elim (Option-cases (pop_last xs)) [
  | inl e ↦ ground (arith, pop_last-none xs e)
  | inr ((z, zs), e) ↦ ground (arith, pop_last-append xs z zs e)
]

length-claim_ready :
    (t : ℕ) (bp bp' : BlueprintPool) (id : String)
    → claim_ready t bp ≡ some (id, bp')
    → (length bp.ready ≡ length bp'.ready + 1)
      × (bp'.in_use ≡ bp.in_use + 1)
      × (bp'.creating ≡ bp.creating)
      × (bp'.max_size ≡ bp.max_size)
unfolding claim_ready
length-claim_ready t bp bp' id h = elim (Option-cases (pop_last bp.ready)) [
  | inl e ↦ absurd (ground arith)
  | inr ((y, ys), e) ↦
      let l : length bp.ready ≡ length ys + 1 =
        omega (arith, ap length (pop_last-append bp.ready y ys e), length-append ys (y ∷ [])) in
      (ground arith, ground arith, ground arith, ground arith)
]

-- Every container that is warm, in use or being made counts.
abbrev pub held : BlueprintPool → ℕ
held bp = length bp.ready + bp.in_use + bp.creating

abbrev pub IsWithin : BlueprintPool → Type 0
IsWithin bp = held bp ≤ bp.max_size

Step-max_size : {b u : Bool} {p q : BlueprintPool} → Step b u p q → q.max_size ≡ p.max_size
unfolding release_into begin_fill end_fill count_claim count_created
Step-max_size {p = p} {q = q} (claims t id h) = (length-claim_ready t p q id h).3
Step-max_size (claims_new t bp h) = refl
Step-max_size (creates bp) = refl
Step-max_size (releases id bp h) = ground arith
Step-max_size (begins h) = ground arith
Step-max_size (ends none bp h) = refl
Step-max_size (ends (some id) bp h) = refl

Step-IsWithin :
    {p q : BlueprintPool} → Step false false p q → 0 < p.max_size → IsWithin p → IsWithin q
unfolding release_into begin_fill end_fill count_claim count_created
Step-IsWithin {p = p} {q = q} (claims t id h) m w = omega (arith, length-claim_ready t p q id h)
Step-IsWithin (claims_new t bp h) m w = cc
Step-IsWithin (creates bp) m w = w
Step-IsWithin (releases id bp (inl h)) m w = ground (arith, length-append bp.ready (id ∷ []))
Step-IsWithin (releases id bp (inr h)) m w = cc
Step-IsWithin (begins h) m w = ground arith
Step-IsWithin (ends none bp h) m w = omega arith
Step-IsWithin (ends (some id) bp h) m w = omega (arith, length-append bp.ready (id ∷ []))

Steps-max_size : {b u : Bool} {p q : BlueprintPool} → Steps b u p q → q.max_size ≡ p.max_size
Steps-max_size here = refl
Steps-max_size (next r s) = Step-max_size s ∙ Steps-max_size r

-- However the critical sections of Claim, Release and any number of fillPool calls interleave, if
-- every claim finds a warm container and every Release comes while the pool counts a container in
-- use, then the containers that are warm, in use or being made never outnumber a positive maximum
-- size that they were within at first.
pub Steps-IsWithin :
    {p q : BlueprintPool} → Steps false false p q → 0 < p.max_size → IsWithin p → IsWithin q
Steps-IsWithin here m w = w
Steps-IsWithin (next r s) m w =
    Step-IsWithin s (omega (arith, Steps-max_size r)) (Steps-IsWithin r m w)
