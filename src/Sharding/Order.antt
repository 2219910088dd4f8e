-- ===== src/Sharding/Order.antt =====
-- RoundRobinStrategy.Distribute and HashStrategy.Distribute: which member gets which task.
use sandboxmatrix.Base.{
  ℕ, zero, suc, ◌+◌, ◌%◌, ◌<◌, String, ◌≡◌, refl, ap, some, List, [], ◌∷◌, map, arith, get_elem?,
  length,
}
use sandboxmatrix.Api.{MatrixMember}
use sandboxmatrix.Sharding.{
  Task, Assignment, assign, counter_mod, hash_key, round_robin_loop, round_robin_distribute,
  hash_loop, hash_distribute,
}

abbrev pub tasks_of : List Assignment → List Task
tasks_of = map (λ (a : Assignment). a.task)

get_elem?-some :
    {A : Type 0} (xs : List A) (i : ℕ) → i < length xs → (a : A) × (get_elem? xs i ≡ some a)
get_elem?-some [] i h = elim h [ ]
get_elem?-some (x ∷ xs) zero h = (x, refl)
get_elem?-some (x ∷ xs) (suc i) h = get_elem?-some xs i (omega arith)

-- The i-th assignment goes to the member at (c + i) modulo 2^64 modulo the number of members.
abbrev pub TakesTurns : List MatrixMember → ℕ → List Assignment → Type 0
TakesTurns members c as' =
    (i : ℕ) (a : Assignment)
    → get_elem? as' i ≡ some a
    → (m : MatrixMember) × (get_elem? members ((c + i) % counter_mod % length members) ≡ some m)
      × (a.member_name ≡ m.name)

turns_cons :
    (members : List MatrixMember) (c : ℕ) (m : MatrixMember) (t : Task) (rest : List Assignment)
    → c < counter_mod
    → get_elem? members (c % length members) ≡ some m
    → TakesTurns members ((c + 1) % counter_mod) rest
    → TakesTurns members c (assign m t ∷ rest)
turns_cons members c m t rest h e turns zero a g =
    let i : (c + 0) % counter_mod ≡ c = omega arith in (m, rw i e, ground (arith, g))
turns_cons members c m t rest h e turns (suc i) a g =
    let (n, f, q) = turns i a g in
    let j : (c + suc i) % counter_mod ≡ ((c + 1) % counter_mod + i) % counter_mod = omega arith in
    (n, rw j f, q)

round_robin-cons :
    (ms : List MatrixMember) (c d : ℕ) (m : MatrixMember) (t : Task) (ts : List Task)
    (rest : List Assignment)
    → get_elem? ms (c % length ms) ≡ some m
    → round_robin_loop ms ((c + 1) % counter_mod) ts ≡ some (rest, d)
    → round_robin_loop ms c (t ∷ ts) ≡ some (assign m t ∷ rest, d)
unfolding round_robin_loop
round_robin-cons ms c d m t ts rest e r = ground (arith, e, r)

in_range :
    (m : MatrixMember) (ms : List MatrixMember) (n : ℕ) → n % length (m ∷ ms) < length (m ∷ ms)
in_range m ms n = omega arith

round_robin_loop_lem :
    (m : MatrixMember) (ms : List MatrixMember) (c : ℕ) (tasks : List Task)
    → c < counter_mod
    → (as' : List Assignment) × (round_robin_loop (m ∷ ms) c tasks
        ≡ some (as', (c + length tasks) % counter_mod))
      × (tasks_of as' ≡ tasks)
      × TakesTurns (m ∷ ms) c as'
unfolding round_robin_loop
round_robin_loop_lem m ms c [] h =
    ([], ap (λ (n : ℕ). some ([], n)) (omega arith), refl, λ i a g. cc)
round_robin_loop_lem m ms c (t ∷ ts) h =
    let (k, e) = get_elem?-some (m ∷ ms) (c % length (m ∷ ms)) (in_range m ms c) in
    let (rest, r, kept, turns) =
      round_robin_loop_lem m ms ((c + 1) % counter_mod) ts (omega arith) in
    let d : (c + length (t ∷ ts)) % counter_mod
        ≡ ((c + 1) % counter_mod + length ts) % counter_mod =
      omega arith in
    (
      assign k t ∷ rest,
      rw d (round_robin-cons (m ∷ ms) c _ k t ts rest e r),
      ap (λ l. t ∷ l) kept,
      turns_cons (m ∷ ms) c k t rest h e turns,
    )

-- Over one member or more, and a counter below 2^64, the round robin does not panic: it assigns
-- every task once, in the order given, to the members in turn, and advances the counter by the
-- number of tasks modulo 2^64.
pub round_robin_turns :
    (m : MatrixMember) (ms : List MatrixMember) (c : ℕ) (tasks : List Task)
    → c < counter_mod
    → (as' : List Assignment) × (round_robin_distribute c tasks (m ∷ ms)
        ≡ some (as', (c + length tasks) % counter_mod))
      × (tasks_of as' ≡ tasks)
      × TakesTurns (m ∷ ms) c as'
unfolding round_robin_distribute
round_robin_turns = round_robin_loop_lem

-- The member whose index is the hash of the task's key.
abbrev pub ByHash : (String → ℕ) → List MatrixMember → List Assignment → Type 0
ByHash sum32 members as' =
    (i : ℕ) (a : Assignment)
    → get_elem? as' i ≡ some a
    → (m : MatrixMember) × (get_elem? members (sum32 (hash_key a.task) % length members) ≡ some m)
      × (a.member_name ≡ m.name)

module _ (sum32 : String → ℕ) where
  hash_cons :
      (members : List MatrixMember) (m : MatrixMember) (t : Task) (rest : List Assignment)
      → get_elem? members (sum32 (hash_key t) % length members) ≡ some m
      → ByHash sum32 members rest
      → ByHash sum32 members (assign m t ∷ rest)
  hash_cons members m t rest e by zero a g = (m, ground (arith, e, g), ground (arith, g))
  hash_cons members m t rest e by (suc i) a g = by i a g

  -- Over one member or more, hashing does not panic: it assigns every task once, in the order
  -- given, to the member that the hash of its key (of its id, if it has no key) selects, whatever
  -- the other tasks.
  pub hash_distribute_lem :
      (m : MatrixMember) (ms : List MatrixMember) (tasks : List Task)
      → (as' : List Assignment) × (hash_distribute sum32 tasks (m ∷ ms) ≡ some as')
        × (tasks_of as' ≡ tasks)
        × ByHash sum32 (m ∷ ms) as'
  unfolding hash_distribute hash_loop
  hash_distribute_lem m ms [] = ([], refl, refl, λ i a g. cc)
  hash_distribute_lem m ms (t ∷ ts) =
      let h = sum32 (hash_key t) in
      let (k, e) = get_elem?-some (m ∷ ms) (h % length (m ∷ ms)) (in_range m ms h) in
      let (rest, r, kept, by) = hash_distribute_lem m ms ts in
      (
        assign k t ∷ rest,
        ground (arith, e, r),
        ap (λ l. t ∷ l) kept,
        hash_cons (m ∷ ms) k t rest e by,
      )
