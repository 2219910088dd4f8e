-- ===== src/Quota/Admission.antt =====
-- A request that is granted, and the sandbox that is then saved.
use sandboxmatrix.Base.{
  ℕ, ◌+◌, ◌≤◌, ◌<◌, String, ◌≡◌, refl, sym, ap, ◌∙◌, Bool, List, [], ◌∷◌, length, keep, str_eq,
  if◌then◌else◌, inl, inr, arith,
}
use sandboxmatrix.Base.Int.{ℤ, pos, negsuc, ◌+ℤ◌}
use sandboxmatrix.Base.Action.{Result, Error, ok, err, Result-cases}
use sandboxmatrix.Api.{Sandbox}
use sandboxmatrix.Api.Team.{Team, ResourceUsage}
use sandboxmatrix.State.{ListLaws}
use sandboxmatrix.State.Stores.{sandbox_key}
use sandboxmatrix.Quota.{
  QuotaRequest, Numbers, Stored, Manager, sum_sandboxes, add_sandbox, no_usage, get_usage,
  check_quota, matrix_usage, session_usage,
}
use sandboxmatrix.Quota.Limits.{IsWithin, check_quota-AreWithin}

abbrev in_team : String → Sandbox → Bool
in_team team s = str_eq s.spec.team team

one_more :
    (max request : ℤ) (used n : ℕ)
    → IsWithin max (pos used +ℤ request) request
    → request ≡ pos 1
    → max ≡ pos n
    → 0 < n
    → used + 1 ≤ n
one_more (pos a) (pos b) used n w e f h =
    let within = w (ground arith) (ground arith) in ground arith
one_more (negsuc a) b used n w e f h = absurd (ground arith)
one_more (pos a) (negsuc b) used n w e f h = absurd (ground arith)

module _ {F : Type 0} (num : Numbers F) where
  sum_counts :
      (team : String) (ss : List Sandbox) (u : ResourceUsage F)
      → (sum_sandboxes num team ss u).sandboxes ≡ u.sandboxes + length (keep (in_team team) ss)
  unfolding sum_sandboxes
  sum_counts team [] u = omega arith
  sum_counts team (s ∷ ss) u =
      ground (arith, sum_counts team ss u, sum_counts team ss (add_sandbox num s u))

  module _ {T S M N : Type 0} (m : Manager T S M N) where
    usage_counts :
        (team : String) (st : Stored T S M N) (u : ResourceUsage F)
        → get_usage num m team st ≡ ok u
        → (xs : List Sandbox) × (m.sandboxes.list st.sandboxes ≡ ok xs)
          × (u.sandboxes ≡ length (keep (in_team team) xs))
    unfolding get_usage
    usage_counts team st u h = elim (Result-cases (m.sandboxes.list st.sandboxes)) [
      | inr (x, e) ↦ absurd (ground arith)
      | inl (xs, e) ↦ elim (Result-cases (matrix_usage num m team st)) [
        | inr (x, f) ↦ absurd (ground arith)
        | inl (n, f) ↦ elim (Result-cases (session_usage num m team xs st)) [
          | inr (x, g) ↦ absurd (ground arith)
          | inl (k, g) ↦
              let sum = record (sum_sandboxes num team xs (no_usage num)) {
                matrices = n;
                sessions = k;
              } in
              let read : ◌≡◌ {A = Result (ResourceUsage F)} (ok sum) (ok u) =
                sym (rw (get_usage, e, f, g) refl) ∙ h in
              let same : sum ≡ u = cc in
              (
                xs,
                e,
                omega (
                  arith,
                  ap (λ (v : ResourceUsage F). v.sandboxes) same,
                  sum_counts team xs (no_usage num),
                ),
              )
        ]
      ]
    ]

    -- If CheckQuota grants one sandbox to a team with a positive limit, and a sandbox of a new
    -- name is then saved in a store whose list grows by what is saved, the team's usage, if it
    -- can be read then, is within the limit.
    pub admitted-IsWithin :
        (team : String) (r : QuotaRequest) (st : Stored T S M N) (t : Team) (n : ℕ) (s : Sandbox)
        (e : Error) (u : ResourceUsage F)
        → ListLaws m.sandboxes sandbox_key
        → check_quota num m team r st ≡ ok tt
        → r.sandboxes ≡ pos 1
        → m.teams.get team st.teams ≡ ok t
        → t.quota.max_sandboxes ≡ pos n
        → 0 < n
        → m.sandboxes.get s.metadata.name st.sandboxes ≡ err e
        → (m.sandboxes.save s st.sandboxes).0 ≡ ok tt
        → get_usage num m team (record st { sandboxes = (m.sandboxes.save s st.sandboxes).1 })
          ≡ ok u
        → u.sandboxes ≤ n
    admitted-IsWithin team r st t n s e u laws h one found limit some_limit new saved usage =
        let (t', u', a, b, w) = (check_quota-AreWithin num m team r st).0 h in
        let (xs, c, d) = usage_counts team st u' b in
        let (ys, f, counts) = laws.list-save_new s st.sandboxes xs e c new saved in
        let (zs, g, k) =
          usage_counts team (record st { sandboxes = (m.sandboxes.save s st.sandboxes).1 }) u
            usage in
        let same : t' ≡ t = cc in
        let limit' : t'.quota.max_sandboxes ≡ pos n =
          ap (λ (x : Team). x.quota.max_sandboxes) same ∙ limit in
        let listed : zs ≡ ys = cc in
        let fits : u'.sandboxes + 1 ≤ n =
          one_more t'.quota.max_sandboxes r.sandboxes u'.sandboxes n w.sandboxes one limit'
            some_limit in
        let grown = counts (in_team team) in
        let total : u.sandboxes
            ≡ length (keep (in_team team) xs) + (if in_team team s then 1 else 0) =
          k ∙ ap (λ l. length (keep (in_team team) l)) listed ∙ grown in
        ground (arith, total, d)
