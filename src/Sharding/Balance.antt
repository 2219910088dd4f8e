-- ===== src/Sharding/Balance.antt =====
-- The loads of the members under BalancedStrategy.Distribute.
use sandboxmatrix.Base.{
  ℕ, suc, ◌+◌, ◌≤◌, String, ◌≡◌, refl, sym, ◌⊎◌, inl, inr, List, [], ◌∷◌, arith, str_eq, eq_iff,
  ltb, Bool-cases, if◌then◌else◌,
}
use sandboxmatrix.Base.Dict.{Dict, lookup, insert, lookup-insert}
use sandboxmatrix.Api.{MatrixMember}
use sandboxmatrix.Sharding.{
  Task, Assignment, count_of, zero_counts, find_min, balanced_loop, balanced_distribute,
}

-- Some member has the name.
abbrev pub In : String → List MatrixMember → Type 0
In n [] = ⊥
In n (m ∷ ms) = (m.name ≡ n) ⊎ In n ms

-- The number of assignments to a name.
abbrev pub load : String → List Assignment → ℕ
load n [] = 0
load n (a ∷ as') = let rest = load n as' in if str_eq a.member_name n then suc rest else rest

count-insert :
    (k n : String) (v : ℕ) (counts : Dict ℕ)
    → count_of (insert k v counts) n ≡ (if str_eq k n then v else count_of counts n)
unfolding count_of
count-insert k n v counts = ground (arith, lookup-insert k n v counts)

zero_counts_lem :
    (ms : List MatrixMember) (counts : Dict ℕ) (n : String)
    → count_of counts n ≡ 0
    → count_of (zero_counts ms counts) n ≡ 0
unfolding zero_counts
zero_counts_lem [] counts n h = h
zero_counts_lem (m ∷ ms) counts n h =
    zero_counts_lem ms (insert m.name 0 counts) n (ground (arith, count-insert m.name n 0 counts))

-- What the inner loop finds: a name with its count, no greater than the count of any name seen.
record IsLeast (counts : Dict ℕ) (ms : List MatrixMember) (name : String) (r : String × ℕ)
    : Type 0 where
  counted : r.1 ≡ count_of counts r.0
  below_start : r.1 ≤ count_of counts name
  below_all : (n : String) → In n ms → r.1 ≤ count_of counts n
  known : (r.0 ≡ name) ⊎ In r.0 ms

find_min-IsLeast :
    (counts : Dict ℕ) (ms : List MatrixMember) (name : String)
    → IsLeast counts ms name (find_min counts ms name (count_of counts name))
unfolding find_min
find_min-IsLeast counts [] name = record {
  counted = refl;
  below_start = omega arith;
  below_all = λ n h. elim h [ ];
  known = inl refl;
}
find_min-IsLeast counts (m ∷ ms) name =
    elim (Bool-cases (ltb (count_of counts m.name) (count_of counts name))) [
      | inl less ↦
          let v = find_min-IsLeast counts ms m.name in
          rw less (record {
            counted = v.counted;
            below_start = ground (arith, v.below_start);
            below_all = λ n h. elim h [ inl e ↦ rw (← e) v.below_start | inr i ↦ v.below_all n i ];
            known = elim v.known [ inl e ↦ inr (inl (sym e)) | inr i ↦ inr (inr i) ];
          })
      | inr more ↦
          let v = find_min-IsLeast counts ms name in
          rw more (record {
            counted = v.counted;
            below_start = v.below_start;
            below_all = λ n h. elim h [
              | inl e ↦ rw (← e) (ground (arith, v.below_start))
              | inr i ↦ v.below_all n i
            ];
            known = elim v.known [ inl e ↦ inl e | inr i ↦ inr (inr i) ];
          })
    ]

-- Every member's count lies between k and k + 1.
abbrev Level : ℕ → (String → ℕ) → List MatrixMember → Type 0
Level k count ms = (n : String) → In n ms → (k ≤ count n) × (count n ≤ k + 1)

least_of :
    (counts : Dict ℕ) (m : MatrixMember) (ms : List MatrixMember) (r : String × ℕ)
    → IsLeast counts ms m.name r
    → (n : String) → In n (m ∷ ms)
    → r.1 ≤ count_of counts n
least_of counts m ms r v n (inl e) = rw (← e) v.below_start
least_of counts m ms r v n (inr i) = v.below_all n i

level_at :
    (k : ℕ) (counts : Dict ℕ) (r : String × ℕ) (n : String)
    → (k ≤ count_of counts r.0) × (count_of counts r.0 ≤ k + 1)
    → (k ≤ count_of counts n) × (count_of counts n ≤ k + 1)
    → r.1 ≤ count_of counts n
    → r.1 ≡ count_of counts r.0
    → (r.1 ≤ count_of (insert r.0 (count_of counts r.0 + 1) counts) n)
      × (count_of (insert r.0 (count_of counts r.0 + 1) counts) n ≤ r.1 + 1)
level_at k counts r n a b d e =
    ground (arith, count-insert r.0 n (count_of counts r.0 + 1) counts, eq_iff r.0 n)

-- One more task for a least loaded member keeps the counts level.
Level-step :
    (k : ℕ) (counts : Dict ℕ) (m : MatrixMember) (ms : List MatrixMember)
    → Level k (count_of counts) (m ∷ ms)
    → let least = (find_min counts ms m.name (count_of counts m.name)).0 in
      (k' : ℕ) × Level k' (count_of (insert least (count_of counts least + 1) counts)) (m ∷ ms)
Level-step k counts m ms l =
    let r = find_min counts ms m.name (count_of counts m.name) in
    let v = find_min-IsLeast counts ms m.name in
    let member : In r.0 (m ∷ ms) = elim v.known [ inl e ↦ inl (sym e) | inr i ↦ inr i ] in
    (
      r.1,
      λ n h. level_at k counts r n (l r.0 member) (l n h) (least_of counts m ms r v n h) v.counted,
    )

loads-Level :
    (k : ℕ) (counts : Dict ℕ) (m : MatrixMember) (ms : List MatrixMember) (ts : List Task)
    → Level k (count_of counts) (m ∷ ms)
    → (k' : ℕ) × Level k' (λ n. count_of counts n + load n (balanced_loop m ms counts ts)) (m ∷ ms)
unfolding balanced_loop
loads-Level k counts m ms [] l = (k, λ n h. omega (arith, l n h))
loads-Level k counts m ms (t ∷ ts) l =
    let least = (find_min counts ms m.name (count_of counts m.name)).0 in
    let next = insert least (count_of counts least + 1) counts in
    let (k1, l1) = Level-step k counts m ms l in
    let (k2, l2) = loads-Level k1 next m ms ts l1 in
    (
      k2,
      λ n h.
          let both = l2 n h in
          let same : count_of counts n + load n (balanced_loop m ms counts (t ∷ ts))
              ≡ count_of next n + load n (balanced_loop m ms next ts) =
            ground
              (arith, count-insert least n (count_of counts least + 1) counts, eq_iff least n) in
          (rw same both.0, rw same both.1),
    )

-- The balanced strategy gives any two members of the matrix numbers of tasks that differ by one at
-- most.
pub balanced_loads :
    (tasks : List Task) (members : List MatrixMember) (a b : String)
    → In a members
    → In b members
    → load a (balanced_distribute tasks members) ≤ load b (balanced_distribute tasks members) + 1
unfolding balanced_distribute
balanced_loads tasks [] a b ha hb = elim ha [ ]
balanced_loads tasks (m ∷ ms) a b ha hb =
    let zero = λ (n : String). zero_counts_lem (m ∷ ms) [] n (unfold count_of lookup in refl) in
    let (k, l) =
      loads-Level 0 (zero_counts (m ∷ ms) []) m ms tasks (λ n h. omega (arith, zero n)) in
    omega (arith, l a ha, l b hb, zero a, zero b)
