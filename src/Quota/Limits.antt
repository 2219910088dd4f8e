-- ===== src/Quota/Limits.antt =====
-- CheckQuota against the limits that it stands for.
use sandboxmatrix.Base.{
  ℕ, String, ◌≡◌, ◌≢◌, ◌↔◌, refl, sym, ◌∙◌, Bool, true, false, str_eq, eq_iff, inl, inr, arith,
  Bool-cases,
}
use sandboxmatrix.Base.Int.{ℤ, pos, negsuc, is_pos, ltb_ℤ, ◌+ℤ◌, ◌≤ℤ◌, add_int}
use sandboxmatrix.Base.Action.{Result, Error, quoted, ok, err, Result-cases}
use sandboxmatrix.Api.Team.{Team, ResourceQuota, ResourceUsage}
use sandboxmatrix.Quota.{
  QuotaRequest, Numbers, add_int64, above_int64, and_then, check_count, check_amount, check_cpu,
  check_bytes, check_limits, parse_cpu, parse_resource_value, Stored, Manager, get_usage,
  check_quota,
}

-- A limit that is not positive is none, and so is a request that asks for nothing; the total is that of
-- the usage and the request.
abbrev pub IsWithin : ℤ → ℤ → ℤ → Type 0
IsWithin max total request = is_pos max ≡ true → is_pos request ≡ true → total ≤ℤ max

ltb_ℤ-≤ℤ : (a b : ℤ) → (ltb_ℤ b a ≡ false) ↔ (a ≤ℤ b)
ltb_ℤ-≤ℤ (pos m) (pos n) = ((λ h. ground arith), λ h. ground arith)
ltb_ℤ-≤ℤ (pos m) (negsuc n) = ((λ h. ground arith), λ h. absurd h)
ltb_ℤ-≤ℤ (negsuc m) (pos n) = ((λ h. tt), λ h. refl)
ltb_ℤ-≤ℤ (negsuc m) (negsuc n) = ((λ h. ground arith), λ h. ground arith)

check_count-IsWithin :
    (resource team : String) (max total request : ℤ)
    → (check_count resource team max total request ≡ ok tt) ↔ IsWithin max total request
unfolding check_count
check_count-IsWithin resource team max total request =
    let (p, q) = ltb_ℤ-≤ℤ total max in
    (
      (λ h a b. p (ground (arith, h, a, b))),
      λ h. elim (Bool-cases (is_pos max)) [
        | inr e ↦ rw e refl
        | inl e ↦ elim (Bool-cases (is_pos request)) [
          | inr f ↦ rw (e, f) refl
          | inl f ↦ rw (e, f, q (h e f)) refl
        ]
      ],
    )

-- Both texts, where they are given, are numbers, and the test on them passes.
abbrev pub IsAmountWithin :
    {A : Type 0} → (String → Result A) → (A → A → Bool) → String → String → Type 0
IsAmountWithin {A} parse is_over max request =
    max ≢ ""
    → request ≢ ""
    → (m : A) × (r : A) × (parse max ≡ ok m) × (parse request ≡ ok r) × (is_over r m ≡ false)

check_amount-IsAmountWithin :
    {A : Type 0} (parse : String → Result A) (is_over : A → A → Bool) (e : Error)
    (max request : String)
    → (check_amount parse is_over e max request ≡ ok tt) ↔ IsAmountWithin parse is_over max request
unfolding check_amount
check_amount-IsAmountWithin parse is_over x max request = elim (Bool-cases (str_eq max "")) [
  | inl e ↦ ((λ h a b. absurd (ground (arith, eq_iff max ""))), λ h. rw (check_amount, e) refl)
  | inr e ↦ elim (Bool-cases (str_eq request "")) [
    | inl f ↦
        ((λ h a b. absurd (ground (arith, eq_iff request ""))), λ h. rw (check_amount, e, f) refl)
    | inr f ↦
        let no_max : max ≢ "" = λ z. ground (arith, eq_iff max "") in
        let no_request : request ≢ "" = λ z. ground (arith, eq_iff request "") in
        (
          (λ h a b. elim (Result-cases (parse max)) [
            | inr (y, p) ↦ absurd (ground arith)
            | inl (m, p) ↦ elim (Result-cases (parse request)) [
              | inr (y, q) ↦ absurd (ground arith)
              | inl (r, q) ↦ (m, r, p, q, ground arith)
            ]
          ]),
          λ h. let (m, r, p, q, o) = h no_max no_request in rw (check_amount, e, f, p, q, o) refl,
        )
  ]
]

and_then-both : (a b : Result (Unit {0})) → and_then a b ≡ ok tt → (a ≡ ok tt) × (b ≡ ok tt)
and_then-both (ok u) b h = (refl, h)
and_then-both (err e) b h = absurd (ground arith)

both-and_then : (a b : Result (Unit {0})) → a ≡ ok tt → b ≡ ok tt → and_then a b ≡ ok tt
both-and_then (ok u) b h k = k
both-and_then (err e) b h k = h

module _ {F : Type 0} (num : Numbers F) where
  -- Everything that a request asks for is within a team's limits.
  pub record AreWithin (q : ResourceQuota) (u : ResourceUsage F) (r : QuotaRequest) : Type 0 where
    pub sandboxes : IsWithin q.max_sandboxes (pos u.sandboxes +ℤ r.sandboxes) r.sandboxes
    pub cpu :
        IsAmountWithin (parse_cpu num) (λ n m. num.above (num.plus u.cpu_cores n) m) q.max_cpu r.cpu
    pub memory :
        IsAmountWithin
          (parse_resource_value num)
          (λ n m. above_int64 (add_int64 u.memory_bytes n) m)
          q.max_memory
          r.memory
    pub disk :
        IsAmountWithin
          (parse_resource_value num)
          (λ n m. above_int64 (add_int64 u.disk_bytes n) m)
          q.max_disk
          r.disk
    pub gpus : IsWithin q.max_gpus (add_int u.gpus r.gpus) r.gpus
    pub matrices : IsWithin q.max_matrices (pos u.matrices +ℤ r.matrices) r.matrices
    pub sessions : IsWithin q.max_sessions (pos u.sessions +ℤ r.sessions) r.sessions

  check_limits-AreWithin :
      (team : String) (q : ResourceQuota) (u : ResourceUsage F) (r : QuotaRequest)
      → (check_limits num team q u r ≡ ok tt) ↔ AreWithin q u r
  unfolding check_limits check_cpu check_bytes
  check_limits-AreWithin team q u r =
      let sandboxes =
        check_count-IsWithin "sandboxes" team q.max_sandboxes (pos u.sandboxes +ℤ r.sandboxes)
          r.sandboxes in
      let cpu =
        check_amount-IsAmountWithin (parse_cpu num) (λ n m. num.above (num.plus u.cpu_cores n) m)
          (quoted "cpu" team) q.max_cpu r.cpu in
      let bytes = λ (name : String) (used : ℕ).
        check_amount-IsAmountWithin (parse_resource_value num)
          (λ n m. above_int64 (add_int64 used n) m) (quoted name team) in
      let memory = bytes "memory" u.memory_bytes q.max_memory r.memory in
      let disk = bytes "disk" u.disk_bytes q.max_disk r.disk in
      let gpus = check_count-IsWithin "gpus" team q.max_gpus (add_int u.gpus r.gpus) r.gpus in
      let matrices =
        check_count-IsWithin "matrices" team q.max_matrices (pos u.matrices +ℤ r.matrices)
          r.matrices in
      let sessions =
        check_count-IsWithin "sessions" team q.max_sessions (pos u.sessions +ℤ r.sessions)
          r.sessions in
      (
        λ h.
            let (a, h1) = and_then-both _ _ h in
            let (b, h2) = and_then-both _ _ h1 in
            let (c, h3) = and_then-both _ _ h2 in
            let (d, h4) = and_then-both _ _ h3 in
            let (e, h5) = and_then-both _ _ h4 in
            let (f, g) = and_then-both _ _ h5 in
            record {
              sandboxes = sandboxes.0 a;
              cpu = cpu.0 b;
              memory = memory.0 c;
              disk = disk.0 d;
              gpus = gpus.0 e;
              matrices = matrices.0 f;
              sessions = sessions.0 g;
            },
        λ w. both-and_then _ _ (sandboxes.1 w.sandboxes) (
            both-and_then _ _ (cpu.1 w.cpu) (
              both-and_then _ _ (memory.1 w.memory) (
                both-and_then _ _ (disk.1 w.disk) (
                  both-and_then _ _ (gpus.1 w.gpus)
                    (both-and_then _ _ (matrices.1 w.matrices) (sessions.1 w.sessions)))))),
      )

  -- CheckQuota grants a request exactly when the team and its usage can be read and, for each
  -- limit that is set and amount that is asked for, both parse and their sum as the manager
  -- computes it is not above the limit: exact for sandboxes, matrices and sessions, in float64
  -- for CPU, and wrapped around at 64 bits for memory, disk and GPUs.
  pub check_quota-AreWithin :
      {T S M N : Type 0} (m : Manager T S M N) (team : String) (r : QuotaRequest)
      (st : Stored T S M N)
      → (check_quota num m team r st ≡ ok tt) ↔ (
          (t : Team) × (u : ResourceUsage F) × (m.teams.get team st.teams ≡ ok t)
          × (get_usage num m team st ≡ ok u)
          × AreWithin t.quota u r)
  unfolding check_quota
  check_quota-AreWithin m team r st = (
    λ h. elim (Result-cases (m.teams.get team st.teams)) [
      | inr (x, e) ↦ absurd (ground arith)
      | inl (t, e) ↦ elim (Result-cases (get_usage num m team st)) [
        | inr (x, f) ↦ absurd (ground arith)
        | inl (u, f) ↦ (
          t,
          u,
          e,
          f,
          (check_limits-AreWithin team t.quota u r).0 (sym (rw (check_quota, e, f) refl) ∙ h),
        )
      ]
    ],
    λ (t, u, e, f, w). rw (check_quota, e, f) ((check_limits-AreWithin team t.quota u r).1 w),
  )
