-- ===== src/Pool.antt =====
-- internal/pool/pool.go: warm containers per blueprint. Each function below that takes a BlueprintPool
-- is one critical section under p.mu; the methods of Pool are put together from them in the order of the
-- source, and Pool/Interleaving runs the sections of several goroutines in any order. A list of
-- container ids keeps the order of the Go slice: append at the end, claim from the end.
pub mod Interleaving
pub mod Overfull
pub mod Manager
use sandboxmatrix.Base.{
  ℕ, ◌+◌, ◌-◌, ◌/◌, String, Bool, ◌&&◌, Option, none, some, List, [], ◌∷◌, ◌++◌, ltb, leb, length,
  if◌then◌else◌,
}

-- notify is the buffered channel: true when it holds its one message.
pub record BlueprintPool : Type 0 where
  pub blueprint : String
  pub min_ready : ℕ
  pub max_size : ℕ
  pub ready : List String
  pub creating : ℕ
  pub in_use : ℕ
  pub total_created : ℕ
  pub total_claims : ℕ
  pub total_claim_ns : ℕ
  pub image : String
  pub blueprint_path : String
  pub notify : Bool

-- The last element of a slice, and the slice without it.
unfoldable pub pop_last : List String → Option (String × List String)
pop_last [] = none
pop_last (x ∷ xs) = elim (pop_last xs) [ none ↦ some (x, []) | some (y, ys) ↦ some (y, x ∷ ys) ]

-- bp.inUse++ and the statistics of a claim that took `elapsed` nanoseconds.
unfoldable pub count_claim : ℕ → BlueprintPool → BlueprintPool
count_claim elapsed bp = record bp {
  in_use = bp.in_use + 1;
  total_claims = bp.total_claims + 1;
  total_claim_ns = bp.total_claim_ns + elapsed;
}

-- The first section of Claim: a warm container, or none and no change. The message to the warm loop is
-- dropped if one is waiting.
unfoldable pub claim_ready : ℕ → BlueprintPool → Option (String × BlueprintPool)
unfolding pop_last count_claim
claim_ready elapsed bp = elim (pop_last bp.ready) [
  | none ↦ none
  | some (id, rest) ↦
      some (id, record (count_claim elapsed bp) { ready = rest; notify = Bool.true })
]

-- The section of Release: whether the container is kept, and the pool after it.
unfoldable pub release_into : String → BlueprintPool → Bool × BlueprintPool
release_into id bp =
    let p = record bp { in_use = bp.in_use - 1 } in
    if ltb 0 p.max_size && leb p.max_size (length p.ready + p.in_use)
    then (Bool.false, p)
    else (Bool.true, record p { ready = p.ready ++ id ∷ [] })

-- fillPool's test, and bp.Creating++ if one more container is to be made.
unfoldable pub begin_fill : BlueprintPool → Option BlueprintPool
begin_fill bp =
    if leb bp.min_ready (length bp.ready + bp.creating)
    then none
    else if ltb 0 bp.max_size && leb bp.max_size (length bp.ready + bp.in_use + bp.creating)
    then none
    else some (record bp { creating = bp.creating + 1 })

-- fillPool after the creation: the new container, or none if it failed.
unfoldable pub end_fill : Option String → BlueprintPool → BlueprintPool
end_fill none bp = record bp { creating = bp.creating - 1 }
end_fill (some id) bp = record bp { creating = bp.creating - 1; ready = bp.ready ++ id ∷ [] }

unfoldable pub count_created : BlueprintPool → BlueprintPool
count_created bp = record bp { total_created = bp.total_created + 1 }

pub record Stats : Type 0 where
  pub blueprint_path : String
  pub min_ready : ℕ
  pub max_size : ℕ
  pub ready : ℕ
  pub in_use : ℕ
  pub total_created : ℕ
  pub avg_claim_time : ℕ

unfoldable pub stats_of : String → BlueprintPool → Stats
stats_of path bp = record {
  blueprint_path = path;
  min_ready = bp.min_ready;
  max_size = bp.max_size;
  ready = length bp.ready;
  in_use = bp.in_use;
  total_created = bp.total_created;
  avg_claim_time = if ltb 0 bp.total_claims then bp.total_claim_ns / bp.total_claims else 0;
}
