-- ===== src/Aggregation/Completion.antt =====
-- When Collect returns, and with what.
use mathlib.Core.Path.{subst}
use sandboxmatrix.Base.{
  ℕ, ◌<◌, ◌≤◌, ◌*◌, ◌≢◌, not, keep, String, ◌≡◌, refl, sym, ap, ◌∙◌, ◌⊎◌, true, Option, none, some,
  List, [], ◌∷◌, ◌++◌, length, arith, str_eq, eq_iff, Bool-cases, inl, inr,
}
use sandboxmatrix.Base.Int.{ℤ, pos, negsuc}
use sandboxmatrix.Base.Action.{Result, Error, Result-cases}
use sandboxmatrix.Api.Task.{AggregationConfig, TaskResult}
use sandboxmatrix.Agent.Gateway.{Message, Gateway, receive_by_type}
use sandboxmatrix.Agent.Gateway.Traffic.{run}
use sandboxmatrix.Aggregation.{
  AggregatedResult, Signal, Collected, chosen_strategy, count_succeeded, count_failed, build_result,
  any_success, above_half, at_least, is_complete, parse_results, task_result, collect_loop, collect,
}

-- A signal of the list.
abbrev pub Has : {H : Type 0} → Signal H → List (Signal H) → Type 0
Has s [] = ⊥
Has s (x ∷ xs) = (x ≡ s) ⊎ Has s xs

-- All results are of one task.
abbrev pub AreOf : String → List TaskResult → Type 0
AreOf task_id [] = Unit
AreOf task_id (r ∷ rs) = (r.task_id ≡ task_id) × AreOf task_id rs

AreOf-append :
    (id : String) (rs ss : List TaskResult) → AreOf id rs → AreOf id ss → AreOf id (rs ++ ss)
AreOf-append id [] ss h k = k
AreOf-append id (r ∷ rs) ss (e, h) k = (e, AreOf-append id rs ss h k)

-- Some result is a success.
abbrev pub AnySuccess : List TaskResult → Type 0
AnySuccess [] = ⊥
AnySuccess (r ∷ rs) = (r.status ≡ "success") ⊎ AnySuccess rs

-- The results with the status of a success, and the others.
abbrev pub successes : List TaskResult → List TaskResult
successes rs = keep (λ r. str_eq r.status "success") rs

abbrev pub failures : List TaskResult → List TaskResult
failures rs = keep (λ r. not (str_eq r.status "success")) rs

-- More than half of the expected number, and no fewer than it; an expected number below 0 asks for
-- nothing that is stated here.
abbrev pub MoreThanHalf : ℤ → ℕ → Type 0
MoreThanHalf (pos z) n = z < 2 * n
MoreThanHalf (negsuc z) n = Unit

abbrev pub Enough : ℤ → ℕ → Type 0
Enough (pos z) n = z ≤ n
Enough (negsuc z) n = Unit

-- What a strategy waits for.
abbrev pub Satisfied : String → ℤ → List TaskResult → Type 0
Satisfied strategy expected results =
    ((strategy ≡ "first-success") × AnySuccess results)
    ⊎ ((strategy ≡ "majority") × MoreThanHalf expected (length (successes results)))
    ⊎ ((strategy ≢ "first-success") × (strategy ≢ "majority") × Enough expected (length results))

count_succeeded-successes : (rs : List TaskResult) → count_succeeded rs ≡ length (successes rs)
unfolding count_succeeded
count_succeeded-successes [] = refl
count_succeeded-successes (r ∷ rs) = ground (arith, count_succeeded-successes rs)

count_failed-failures : (rs : List TaskResult) → count_failed rs ≡ length (failures rs)
unfolding count_failed
count_failed-failures [] = refl
count_failed-failures (r ∷ rs) = ground (arith, count_failed-failures rs)

any_success-AnySuccess : (rs : List TaskResult) → any_success rs ≡ true → AnySuccess rs
unfolding any_success
any_success-AnySuccess [] h = ground arith
any_success-AnySuccess (r ∷ rs) h = elim (Bool-cases (str_eq r.status "success")) [
  | inl e ↦ inl ((eq_iff r.status "success").0 e)
  | inr e ↦ inr (any_success-AnySuccess rs (ground arith))
]

half-MoreThanHalf : (z : ℤ) (n : ℕ) → above_half n z ≡ true → MoreThanHalf z n
half-MoreThanHalf (pos z) n h = ground arith
half-MoreThanHalf (negsuc z) n h = tt

at_least-Enough : (z : ℤ) (n : ℕ) → at_least n z ≡ true → Enough z n
at_least-Enough (pos z) n h = ground arith
at_least-Enough (negsuc z) n h = tt

is_complete-Satisfied :
    (strategy : String) (expected : ℤ) (results : List TaskResult)
    → is_complete strategy expected results ≡ true
    → Satisfied strategy expected results
unfolding is_complete
is_complete-Satisfied strategy expected results h =
    elim (Bool-cases (str_eq strategy "first-success")) [
      | inl e ↦
          let any : any_success results ≡ true = sym (rw (is_complete, e) refl) ∙ h in
          inl ((eq_iff strategy "first-success").0 e, any_success-AnySuccess results any)
      | inr e ↦ elim (Bool-cases (str_eq strategy "majority")) [
        | inl f ↦
            let half : above_half (count_succeeded results) expected ≡ true =
              sym (rw (is_complete, e, f) refl) ∙ h in
            inr (
              inl (
                (eq_iff strategy "majority").0 f,
                half-MoreThanHalf expected (length (successes results))
                    (rw (count_succeeded-successes results) at half),
              ))
        | inr f ↦
            let all : at_least (length results) expected ≡ true =
              sym (rw (is_complete, e, f) refl) ∙ h in
            inr (
              inr (
                (λ q. ground (arith, eq_iff strategy "first-success")),
                (λ q. ground (arith, eq_iff strategy "majority")),
                at_least-Enough expected (length results) all,
              ))
      ]
    ]

module _ {H : Type 0} (strategy : String) (expected : ℤ) where
  -- Why Collect stopped.
  abbrev pub Stopped : List (Signal H) → List TaskResult → Option Error → Type 0
  Stopped ss results e =
      ((e ≡ none) × Satisfied strategy expected results)
      ⊎ ((e ≡ none) × Has (Signal.expired) ss)
      ⊎ ((x : Error) × (e ≡ some x) × Has (Signal.cancelled x) ss)

  Stopped-later :
      (s : Signal H) (ss : List (Signal H)) (results : List TaskResult) (e : Option Error)
      → Stopped ss results e
      → Stopped (s ∷ ss) results e
  Stopped-later s ss results e h = elim h [
    | inl a ↦ inl a
    | inr b ↦ elim b [ inl (p, q) ↦ inr (inl (p, inr q)) | inr (x, p, q) ↦ inr (inr (x, p, inr q)) ]
  ]

module _ (unmarshal : String → Result TaskResult) (task_id : String) where
  AreOf-parse_results : (ms : List Message) → AreOf task_id (parse_results unmarshal task_id ms)
  unfolding parse_results
  AreOf-parse_results [] = tt
  AreOf-parse_results (m ∷ ms) = elim (Result-cases (unmarshal m.payload)) [
    | inr (x, e) ↦ rw (parse_results, e) (AreOf-parse_results ms)
    | inl (r, e) ↦ elim (Bool-cases (str_eq r.task_id task_id)) [
      | inl s ↦
          rw (parse_results, e, s)
            (ground (arith, eq_iff r.task_id task_id), AreOf-parse_results ms)
      | inr s ↦ rw (parse_results, e, s) (AreOf-parse_results ms)
    ]
  ]

  pub parse_results-append :
      (ms ns : List Message)
      → parse_results unmarshal task_id (ms ++ ns)
        ≡ parse_results unmarshal task_id ms ++ parse_results unmarshal task_id ns
  unfolding parse_results
  parse_results-append [] ns = refl
  parse_results-append (m ∷ ms) ns =
      let h = parse_results-append ms ns in
      elim (Result-cases (unmarshal m.payload)) [
        | inr (x, e) ↦ rw (parse_results, e) h
        | inl (r, e) ↦ elim (Bool-cases (str_eq r.task_id task_id)) [
          | inl s ↦ rw (parse_results, e, s) (ap (◌∷◌ r) h)
          | inr s ↦ rw (parse_results, e, s) h
        ]
      ]

  module _ {H : Type 0} (coordinator strategy : String) (expected : ℤ) where
    abbrev pub Ends : List (Signal H) → AggregatedResult → Option Error → Type 0
    Ends ss r e =
        (r ≡ build_result task_id strategy r.results)
        × AreOf task_id r.results
        × Stopped strategy expected ss r.results e

    finish :
        (results : List TaskResult) (ss : List (Signal H)) (g g' : Gateway H) (r : AggregatedResult)
        (e e' : Option Error)
        → AreOf task_id results
        → Stopped strategy expected ss results e'
        → ◌≡◌ {A = Option (Collected H)}
            (some ((build_result task_id strategy results, e'), g))
            (some ((r, e), g'))
        → Ends ss r e
    unfolding build_result
    finish results ss g g' r e e' h s k =
        let p : build_result task_id strategy results ≡ r = cc in
        let q : e' ≡ e = cc in
        subst (λ (u : AggregatedResult). Ends ss u e) p
          (subst (λ u. Ends ss (build_result task_id strategy results) u) q (refl, h, s))

    loop-Ends :
        (acc : List TaskResult) (ss : List (Signal H)) (g g' : Gateway H) (r : AggregatedResult)
        (e : Option Error)
        → AreOf task_id acc
        → collect_loop unmarshal coordinator task_id strategy expected acc ss g ≡ some ((r, e), g')
        → Ends ss r e
    unfolding collect_loop build_result
    loop-Ends acc [] g g' r e h k = absurd (ground arith)
    loop-Ends acc (Signal.cancelled x ∷ ss) g g' r e h k =
        finish acc (Signal.cancelled x ∷ ss) g g' r e (some x) h (inr (inr (x, refl, inl refl))) k
    loop-Ends acc (Signal.expired ∷ ss) g g' r e h k =
        finish acc (Signal.expired ∷ ss) g g' r e none h (inr (inl (refl, inl refl))) k
    loop-Ends acc (Signal.tick os ∷ ss) g g' r e h k =
        let polled = receive_by_type coordinator task_result (run os g) in
        let new = parse_results unmarshal task_id polled.0 in
        let now = acc ++ new in
        let of' = AreOf-append task_id acc new h (AreOf-parse_results polled.0) in
        elim (Bool-cases (is_complete strategy expected now)) [
          | inl c ↦
              finish now (Signal.tick os ∷ ss) polled.1 g' r e none of'
                (inl (refl, is_complete-Satisfied strategy expected now c))
                (sym (rw (collect_loop, c) refl) ∙ k)
          | inr c ↦
              let (p, q, s) =
                loop-Ends now ss polled.1 g' r e of' (sym (rw (collect_loop, c) refl) ∙ k) in
              (p, q, Stopped-later strategy expected (Signal.tick os) ss r.results e s)
        ]

    loop_returns :
        (s : Signal H)
        → (s ≡ Signal.expired) ⊎ ((x : Error) × (s ≡ Signal.cancelled x))
        → (acc : List TaskResult) (ss : List (Signal H)) (g : Gateway H) → Has s ss
        → (out : Collected H) × (collect_loop unmarshal coordinator task_id strategy expected acc ss
              g
            ≡ some out)
    unfolding collect_loop
    loop_returns s w acc [] g h = absurd h
    loop_returns s w acc (Signal.cancelled x ∷ ss) g h = (_, refl)
    loop_returns s w acc (Signal.expired ∷ ss) g h = (_, refl)
    loop_returns s w acc (Signal.tick os ∷ ss) g h =
        let polled = receive_by_type coordinator task_result (run os g) in
        let now = acc ++ parse_results unmarshal task_id polled.0 in
        elim (Bool-cases (is_complete strategy expected now)) [
          | inl c ↦
              (((build_result task_id strategy now, none), polled.1), rw (collect_loop, c) refl)
          | inr c ↦ elim h [
            | inl i ↦ absurd (elim w [ inl j ↦ ground arith | inr (x, j) ↦ ground arith ])
            | inr i ↦
                let (out, q) = loop_returns s w now ss polled.1 i in (out, rw (collect_loop, c) q)
          ]
        ]

-- A Collect that returns gives results of its task only, with their number, and counts those of
-- status success and the others; it stopped at its deadline, or with the error of its context, or
-- because one result is a success (first-success), the successes are more than half of an expected
-- number (majority), or the results are no fewer than it (any other strategy), where an expected
-- number below 0 asks for nothing in the last two.
pub collect_ends :
    {H : Type 0} (unmarshal : String → Result TaskResult) (coordinator task_id : String)
    (expected : ℤ) (cfg : Option AggregationConfig) (ss : List (Signal H)) (g g' : Gateway H)
    (r : AggregatedResult) (e : Option Error)
    → collect unmarshal coordinator task_id expected cfg ss g ≡ some ((r, e), g')
    → (r.task_id ≡ task_id)
      × (r.total ≡ length r.results)
      × (r.succeeded ≡ length (successes r.results))
      × (r.failed ≡ length (failures r.results))
      × AreOf task_id r.results
      × Stopped (chosen_strategy cfg) expected ss r.results e
unfolding collect build_result
collect_ends unmarshal coordinator task_id expected cfg ss g g' r e h =
    let (p, q, s) =
      loop-Ends unmarshal task_id coordinator (chosen_strategy cfg) expected [] ss g g' r e tt h in
    (
      ap (λ u. u.task_id) p,
      ap (λ u. u.total) p,
      ap (λ u. u.succeeded) p ∙ count_succeeded-successes r.results,
      ap (λ u. u.failed) p ∙ count_failed-failures r.results,
      q,
      s,
    )

-- A Collect whose deadline passes or whose context is cancelled returns, whatever the other signals
-- are.
pub collect_returns :
    {H : Type 0} (unmarshal : String → Result TaskResult) (coordinator task_id : String)
    (expected : ℤ) (cfg : Option AggregationConfig) (s : Signal H) (ss : List (Signal H))
    (g : Gateway H)
    → (s ≡ Signal.expired) ⊎ ((x : Error) × (s ≡ Signal.cancelled x))
    → Has s ss
    → (out : Collected H) × (collect unmarshal coordinator task_id expected cfg ss g ≡ some out)
unfolding collect
collect_returns unmarshal coordinator task_id expected cfg s ss g w h =
    loop_returns unmarshal task_id coordinator (chosen_strategy cfg) expected s w [] ss g h
