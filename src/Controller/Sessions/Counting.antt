-- ===== src/Controller/Sessions/Counting.antt =====
-- The sessions as seen through the session store.
use sandboxmatrix.Base.{
  String, ◌≡◌, ◌≢◌, true, none, some, arith, str_eq, eq_refl, if◌then◌else◌, inl, inr,
}
use sandboxmatrix.Base.Action.{ok, Result-cases}
use sandboxmatrix.Api.{Session, Sandbox}
use sandboxmatrix.State.{Store, StoreLaws}
use sandboxmatrix.Runtime.{ExecConfig}
use sandboxmatrix.Controller.{System, Controller, is_active}
use sandboxmatrix.Controller.Sessions.{
  is_open, new_session, completed_at, start_session, end_session, exec_in_session,
}

abbrev pub session_name : Session → String
session_name s = s.metadata.name

module _ {S M N W : Type 0} (c : Controller S M N W) (st : Store N Session)
    (laws : StoreLaws st session_name) where
  -- With a session store that keeps the store laws, a StartSession that succeeds found the
  -- sandbox running or ready, and stores the new session, open and with no commands, under its id
  -- alone.
  pub start_session_stores :
      (id name : String) (σ : System S M N W) (s : Session)
      → c.sessions ≡ some st
      → (start_session c id name σ).0 ≡ ok s
      → (sb : Sandbox) × (c.store.get name σ.sandboxes ≡ ok sb)
        × (is_active sb.status.state ≡ true)
        × (s ≡ new_session id name (c.clock σ.world))
        × ((k : String)
            → st.get k (start_session c id name σ).1.sessions
              ≡ (if str_eq id k then ok s else st.get k σ.sessions))
  unfolding start_session
  start_session_stores id name σ s conf h = elim (Result-cases (c.store.get name σ.sandboxes)) [
    | inl (sb, e) ↦ (
      sb,
      e,
      ground arith,
      ground arith,
      λ k. ground (arith, laws.get-save (new_session id name (c.clock σ.world)) σ.sessions k),
    )
    | inr (x, e) ↦ absurd (ground arith)
  ]

  -- With a session store that keeps the store laws, an EndSession that succeeds found an open
  -- session; if it was stored under its own name, then it is completed now, and neither
  -- EndSession nor ExecInSession succeeds on it again.
  pub end_session_final :
      (id : String) (σ : System S M N W) (cfg : ExecConfig)
      → c.sessions ≡ some st
      → ((s : Session) → st.get id σ.sessions ≡ ok s → session_name s ≡ id)
      → (end_session c id σ).0 ≡ ok tt
      → let σ' = (end_session c id σ).1 in
        ((s : Session) × (st.get id σ.sessions ≡ ok s)
          × (is_open s.state ≡ true)
          × (st.get id σ'.sessions ≡ ok (completed_at s (c.clock σ.world))))
        × ((end_session c id σ').0 ≢ ok tt)
        × ((exec_in_session c id cfg σ').0.1 ≢ none)
  unfolding end_session exec_in_session
  end_session_final id σ cfg conf keyed h = elim (Result-cases (st.get id σ.sessions)) [
    | inl (s, e) ↦
        let t = c.clock σ.world in
        let l = laws.get-save (completed_at s t) σ.sessions id in
        (
          (s, e, ground arith, ground (arith, l, keyed s e, eq_refl id)),
          (λ x. ground (arith, l, keyed s e, eq_refl id)),
          λ x. ground (arith, l, keyed s e, eq_refl id),
        )
    | inr (x, e) ↦ absurd (ground arith)
  ]
