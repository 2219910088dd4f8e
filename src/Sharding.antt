-- ===== src/Sharding.antt =====
-- internal/sharding/sharding.go: the strategies that assign tasks to the members of a matrix. An index
-- out of range, which would be a panic, gives none. hash/fnv is a parameter.
pub mod Order
pub mod Balance
use sandboxmatrix.Base.{
  ℕ, suc, ◌+◌, ◌%◌, ◌^◌, String, Option, none, some, List, [], ◌∷◌, get_elem?, length, ltb, str_eq,
  if◌then◌else◌,
}
use sandboxmatrix.Base.Dict.{Dict, lookup, insert}
use sandboxmatrix.Api.{MatrixMember}
use sandboxmatrix.Api.Task.{ShardingConfig}

pub record Task : Type 0 where
  pub id : String
  pub payload : String
  pub key : String
  pub meta : Dict String

pub record Assignment : Type 0 where
  pub member_name : String
  pub task : Task

pub data Strategy : Type 0 where
  round_robin hash balanced : Strategy

unfoldable pub new_strategy : Option ShardingConfig → Strategy
new_strategy none = round_robin
new_strategy (some cfg) =
    if str_eq cfg.strategy "hash"
    then hash
    else if str_eq cfg.strategy "balanced"
    then balanced
    else round_robin

infixl 5 ◌>>=◌
abbrev ◌>>=◌ : {A B : Type 0} → Option A → (A → Option B) → Option B
none >>= f = none
some a >>= f = f a

abbrev pub assign : MatrixMember → Task → Assignment
assign m t = record { member_name = m.name; task = t }

-- The counter is an atomic uint64.
abbrev pub counter_mod : ℕ
counter_mod = 2 ^ 64

unfoldable pub round_robin_loop : List MatrixMember → ℕ → List Task → Option (List Assignment × ℕ)
round_robin_loop members c [] = some ([], c)
round_robin_loop members c (t ∷ ts) = do
  m ← get_elem? members (c % length members)
  (rest, c') ← round_robin_loop members ((c + 1) % counter_mod) ts
  some (assign m t ∷ rest, c')

-- RoundRobinStrategy.Distribute, with the counter before and after.
unfoldable pub round_robin_distribute :
    ℕ → List Task → List MatrixMember → Option (List Assignment × ℕ)
unfolding round_robin_loop
round_robin_distribute c tasks [] = some ([], c)
round_robin_distribute c tasks (m ∷ ms) = round_robin_loop (m ∷ ms) c tasks

abbrev pub hash_key : Task → String
hash_key t = if str_eq t.key "" then t.id else t.key

module _ (sum32 : String → ℕ) where
  unfoldable pub hash_loop : List MatrixMember → List Task → Option (List Assignment)
  hash_loop members [] = some []
  hash_loop members (t ∷ ts) = do
    m ← get_elem? members (sum32 (hash_key t) % length members)
    rest ← hash_loop members ts
    some (assign m t ∷ rest)

  unfoldable pub hash_distribute : List Task → List MatrixMember → Option (List Assignment)
  unfolding hash_loop
  hash_distribute tasks [] = some []
  hash_distribute tasks (m ∷ ms) = hash_loop (m ∷ ms) tasks

-- counts[name]
unfoldable pub count_of : Dict ℕ → String → ℕ
count_of counts n = elim (lookup n counts) [ none ↦ 0 | some c ↦ c ]

unfoldable pub zero_counts : List MatrixMember → Dict ℕ → Dict ℕ
zero_counts [] counts = counts
zero_counts (m ∷ ms) counts = zero_counts ms (insert m.name 0 counts)

-- The inner loop: the first member with the fewest tasks so far.
unfoldable pub find_min : Dict ℕ → List MatrixMember → String → ℕ → String × ℕ
find_min counts [] name count = (name, count)
find_min counts (m ∷ ms) name count =
    let less = ltb (count_of counts m.name) count in
    find_min counts ms (if less then m.name else name)
      (if less then count_of counts m.name else count)

unfoldable pub balanced_loop :
    MatrixMember → List MatrixMember → Dict ℕ → List Task → List Assignment
balanced_loop m ms counts [] = []
balanced_loop m ms counts (t ∷ ts) =
    let least = (find_min counts ms m.name (count_of counts m.name)).0 in
    record { member_name = least; task = t }
    ∷ balanced_loop m ms (insert least (count_of counts least + 1) counts) ts

unfoldable pub balanced_distribute : List Task → List MatrixMember → List Assignment
unfolding balanced_loop find_min zero_counts count_of
balanced_distribute tasks [] = []
balanced_distribute tasks (m ∷ ms) = balanced_loop m ms (zero_counts (m ∷ ms) []) tasks
