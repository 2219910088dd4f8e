-- ===== src/Server/OidcStates.antt =====
-- stateStore of internal/server/oidc_handlers.go: states are used once, within ten minutes. The random
-- state is an argument; time is in seconds.
use sandboxmatrix.Base.{
  ℕ, ◌+◌, ◌<◌, String, Bool, true, false, ◌≡◌, Option, none, some, List, [], ◌∷◌, ltb, str_eq,
  eq_iff, arith, if◌then◌else◌, inl, inr, Bool-cases, Option-cases,
}
use sandboxmatrix.Base.Dict.{Dict, lookup, insert, remove, lookup-insert, lookup-remove}
use sandboxmatrix.Base.Action.{Action, Result, ok, err}

-- The loop over the map, which deletes the expired states from it.
unfoldable pub clean : ℕ → Dict ℕ → Dict ℕ → Dict ℕ
clean now [] states = states
clean now ((k, v) ∷ entries) states =
    clean now entries (if ltb v now then remove k states else states)

unfoldable pub generate : Result String → ℕ → Action (Dict ℕ) String
unfolding clean
generate (err e) now states = (err e, states)
generate (ok state) now states = (ok state, insert state (now + 600) (clean now states states))

unfoldable pub validate_state : String → ℕ → Dict ℕ → Bool × Dict ℕ
validate_state state now states = elim (lookup state states) [
  | none ↦ (false, states)
  | some expiry ↦ (ltb now expiry, remove state states)
]

pub data Call : Type 0 where
  generates : Result String → ℕ → Call
  validates : String → ℕ → Call

-- The calls are listed newest first.
abbrev pub after : List Call → Dict ℕ
after [] = []
after (Call.generates s now ∷ earlier) = (generate s now (after earlier)).1
after (Call.validates s now ∷ earlier) = (validate_state s now (after earlier)).1

-- The expiry of a state that was generated and not validated since.
abbrev pub issued : String → List Call → Option ℕ
issued s [] = none
issued s (Call.generates (err e) now ∷ earlier) = issued s earlier
issued s (Call.generates (ok t) now ∷ earlier) =
    if str_eq t s then some (now + 600) else issued s earlier
issued s (Call.validates t now ∷ earlier) = if str_eq t s then none else issued s earlier

lookup-clean :
    (s : String) (now e : ℕ) (entries states : Dict ℕ)
    → lookup s (clean now entries states) ≡ some e
    → lookup s states ≡ some e
unfolding clean
lookup-clean s now e [] states h = h
lookup-clean s now e ((k, v) ∷ entries) states h = elim (Bool-cases (ltb v now)) [
  | inl q ↦
      ground (
        arith,
        lookup-remove k s states,
        lookup-clean s now e entries (remove k states) (rw q at h),
      )
  | inr q ↦ lookup-clean s now e entries states (rw q at h)
]

lookup-after :
    (s : String) (e : ℕ) (calls : List Call)
    → lookup s (after calls) ≡ some e
    → issued s calls ≡ some e
unfolding generate validate_state lookup
lookup-after s e [] h = absurd (ground arith)
lookup-after s e (Call.generates (err x) now ∷ earlier) h = lookup-after s e earlier h
lookup-after s e (Call.generates (ok t) now ∷ earlier) h =
    let d = after earlier in
    elim (Bool-cases (str_eq t s)) [
      | inl q ↦ ground (arith, lookup-insert t s (now + 600) (clean now d d))
      | inr q ↦
          let kept : lookup s (clean now d d) ≡ some e =
            ground (arith, lookup-insert t s (now + 600) (clean now d d)) in
          rw q (lookup-after s e earlier (lookup-clean s now e d d kept))
    ]
lookup-after s e (Call.validates t now ∷ earlier) h =
    elim (Option-cases (lookup t (after earlier))) [
      | inl q ↦ elim (Bool-cases (str_eq t s)) [
        | inl r ↦ absurd (ground (arith, eq_iff t s))
        | inr r ↦ rw r (lookup-after s e earlier (ground arith))
      ]
      | inr (x, q) ↦ elim (Bool-cases (str_eq t s)) [
        | inl r ↦ absurd (ground (arith, lookup-remove t s (after earlier)))
        | inr r ↦
            rw r (lookup-after s e earlier (ground (arith, lookup-remove t s (after earlier))))
      ]
    ]

-- After any calls of generate and validate, a state that validate accepts was generated less than
-- ten minutes before and not validated since, and it is gone then.
pub validate_state-issued :
    (s : String) (now : ℕ) (calls : List Call)
    → (validate_state s now (after calls)).0 ≡ true
    → ((e : ℕ) × (issued s calls ≡ some e) × (now < e))
      × (lookup s (validate_state s now (after calls)).1 ≡ none)
unfolding validate_state
validate_state-issued s now calls h = elim (Option-cases (lookup s (after calls))) [
  | inl q ↦ absurd (ground arith)
  | inr (e, q) ↦ (
    (e, lookup-after s e calls q, ground arith),
    ground (arith, lookup-remove s s (after calls), eq_iff s s),
  )
]
