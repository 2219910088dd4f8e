-- ===== src/Controller/Sessions/Ended.antt =====
-- An ended session under later calls, each of which is over before the next one begins.
use sandboxmatrix.Base.{
  String, ◌≡◌, ◌≢◌, ◌⊎◌, refl, sym, ap, ◌∙◌, true, false, some, none, List, [], ◌∷◌, arith, str_eq,
  eq_iff, inl, inr, Bool-cases, Option-cases,
}
use sandboxmatrix.Base.Action.{ok, Result-cases}
use sandboxmatrix.Api.{Session}
use sandboxmatrix.State.{Store, StoreLaws}
use sandboxmatrix.Runtime.{ExecConfig}
use sandboxmatrix.Controller.{System, Controller, exec, is_active}
use sandboxmatrix.Controller.Sessions.{
  is_open, new_session, completed_at, counted_at, start_session, end_session, exec_in_session,
}
use sandboxmatrix.Controller.Sessions.Counting.{session_name, end_session_final}

pub data SessionCall : Type 0 where
  starts : String → String → SessionCall
  ends : String → SessionCall
  execs : String → ExecConfig → SessionCall

-- No StartSession draws the id.
abbrev pub IsNotDrawn : String → List SessionCall → Type 0
IsNotDrawn id [] = Unit
IsNotDrawn id (starts new name ∷ xs) = (new ≢ id) × IsNotDrawn id xs
IsNotDrawn id (ends k ∷ xs) = IsNotDrawn id xs
IsNotDrawn id (execs k cfg ∷ xs) = IsNotDrawn id xs

abbrev Draws : SessionCall → String → Type 0
Draws (starts new name) k = new ≡ k
Draws (ends i) k = ⊥
Draws (execs i cfg) k = ⊥

module _ {S M N W : Type 0} (c : Controller S M N W) where
  abbrev pub call : SessionCall → System S M N W → System S M N W
  call (starts id name) σ = (start_session c id name σ).1
  call (ends id) σ = (end_session c id σ).1
  call (execs id cfg) σ = (exec_in_session c id cfg σ).1

  abbrev pub call_all : List SessionCall → System S M N W → System S M N W
  call_all [] σ = σ
  call_all (x ∷ xs) σ = call_all xs (call x σ)

module _ {S M N W : Type 0} (c : Controller S M N W) (st : Store N Session)
    (laws : StoreLaws st session_name) (conf : c.sessions ≡ some st) where
  abbrev pub AreKeyed : N → Type 0
  AreKeyed n = (k : String) (s : Session) → st.get k n ≡ ok s → session_name s ≡ k

  -- What a call may write under a name: a new session, or one over an open session.
  abbrev Written : SessionCall → String → N → N → Type 0
  Written x k n n' =
      (v : Session) × (st.get k n' ≡ ok v)
      × (session_name v ≡ k)
      × (Draws x k ⊎ ((s : Session) × (st.get k n ≡ ok s) × (is_open s.state ≡ true)))

  save_shown :
      (v : Session) (n : N) (k : String)
      → (st.get k (st.save v n).1 ≡ st.get k n)
        ⊎ ((st.get k (st.save v n).1 ≡ ok v) × (session_name v ≡ k))
  save_shown v n k = elim (Result-cases (st.save v n).0) [
    | inr (e, f) ↦ inl (laws.save_fails v n k e f)
    | inl (u, f) ↦ elim (Bool-cases (str_eq (session_name v) k)) [
      | inl same ↦ inr (ground (arith, laws.get-save v n k f), (eq_iff (session_name v) k).0 same)
      | inr other ↦ inl (ground (arith, laws.get-save v n k f))
    ]
  ]

  call_saves :
      (x : SessionCall) (σ : System S M N W)
      → AreKeyed σ.sessions
      → ((call c x σ).sessions ≡ σ.sessions)
        ⊎ ((v : Session) × ((call c x σ).sessions ≡ (st.save v σ.sessions).1)
            × (Draws x (session_name v)
                ⊎ ((s : Session) × (st.get (session_name v) σ.sessions ≡ ok s)
                    × (is_open s.state ≡ true))))
  unfolding start_session end_session exec_in_session exec
  call_saves (starts id name) σ keyed = elim (Result-cases (c.store.get name σ.sandboxes)) [
    | inr (x, e) ↦ inl (ground arith)
    | inl (sb, e) ↦ elim (Bool-cases (is_active sb.status.state)) [
      | inr f ↦ inl (ground arith)
      | inl f ↦ inr (new_session id name (c.clock σ.world), ground arith, inl refl)
    ]
  ]
  call_saves (ends id) σ keyed = elim (Result-cases (st.get id σ.sessions)) [
    | inr (x, e) ↦ inl (ground arith)
    | inl (s, e) ↦ elim (Bool-cases (is_open s.state)) [
      | inr f ↦ inl (ground arith)
      | inl f ↦ inr (
        completed_at s (c.clock σ.world),
        ground arith,
        inr (s, (ap (λ m. st.get m σ.sessions) (keyed id s e) ∙ e), f),
      )
    ]
  ]
  call_saves (execs id cfg) σ keyed = elim (Result-cases (st.get id σ.sessions)) [
    | inr (x, e) ↦ inl (ground arith)
    | inl (s, e) ↦ elim (Bool-cases (is_open s.state)) [
      | inr f ↦ inl (ground arith)
      | inl f ↦
          let ran = exec c s.sandbox cfg σ in
          elim (Option-cases ran.0.1) [
            | inr (x, g) ↦ inl (ground arith)
            | inl g ↦ inr (
              counted_at s (c.clock ran.1.world),
              ground arith,
              inr (s, (ap (λ m. st.get m σ.sessions) (keyed id s e) ∙ e), f),
            )
          ]
    ]
  ]

  call_shown :
      (x : SessionCall) (σ : System S M N W) (k : String)
      → AreKeyed σ.sessions
      → (st.get k (call c x σ).sessions ≡ st.get k σ.sessions)
        ⊎ Written x k σ.sessions (call c x σ).sessions
  call_shown x σ k keyed = elim (call_saves x σ keyed) [
    | inl same ↦ inl (ap (st.get k) same)
    | inr (v, e, why) ↦ elim (save_shown v σ.sessions k) [
      | inl kept ↦ inl (ap (st.get k) e ∙ kept)
      | inr (shown, n) ↦ inr (v, (ap (st.get k) e ∙ shown), n, rw n at why)
    ]
  ]

  call-AreKeyed :
      (x : SessionCall) (σ : System S M N W) → AreKeyed σ.sessions → AreKeyed (call c x σ).sessions
  call-AreKeyed x σ keyed k s h = elim (call_shown x σ k keyed) [
    | inl same ↦ keyed k s (sym same ∙ h)
    | inr (v, shown, n, why) ↦ let e : v ≡ s = cc in ap session_name (sym e) ∙ n
  ]

  call_closed :
      (x : SessionCall) (σ : System S M N W) (id : String) (s : Session)
      → AreKeyed σ.sessions
      → (Draws x id → ⊥)
      → st.get id σ.sessions ≡ ok s
      → is_open s.state ≡ false
      → st.get id (call c x σ).sessions ≡ ok s
  call_closed x σ id s keyed fresh h closed = elim (call_shown x σ id keyed) [
    | inl same ↦ same ∙ h
    | inr (v, shown, n, why) ↦
        absurd (elim why [ inl d ↦ fresh d | inr (s', g, o) ↦ let e : s' ≡ s = cc in ground arith ])
  ]

  call_all_closed :
      (xs : List SessionCall) (σ : System S M N W) (id : String) (s : Session)
      → AreKeyed σ.sessions
      → IsNotDrawn id xs
      → st.get id σ.sessions ≡ ok s
      → is_open s.state ≡ false
      → st.get id (call_all c xs σ).sessions ≡ ok s
  call_all_closed [] σ id s keyed fresh h closed = h
  call_all_closed (starts new name ∷ xs) σ id s keyed (f, fresh) h closed =
      let x = starts new name in
      call_all_closed xs (call c x σ) id s (call-AreKeyed x σ keyed) fresh
        (call_closed x σ id s keyed f h closed) closed
  call_all_closed (ends i ∷ xs) σ id s keyed fresh h closed =
      call_all_closed xs (call c (ends i) σ) id s (call-AreKeyed (ends i) σ keyed) fresh
        (call_closed (ends i) σ id s keyed (λ b. b) h closed) closed
  call_all_closed (execs i cfg ∷ xs) σ id s keyed fresh h closed =
      call_all_closed xs (call c (execs i cfg) σ) id s (call-AreKeyed (execs i cfg) σ keyed) fresh
        (call_closed (execs i cfg) σ id s keyed (λ b. b) h closed) closed

  closed_refuses :
      (id : String) (σ : System S M N W) (s : Session) (cfg : ExecConfig)
      → st.get id σ.sessions ≡ ok s
      → is_open s.state ≡ false
      → ((end_session c id σ).0 ≢ ok tt) × ((exec_in_session c id cfg σ).0.1 ≢ none)
  unfolding end_session exec_in_session
  closed_refuses id σ s cfg h closed = ((λ x. ground arith), λ x. ground arith)

  -- With a session store that keeps the store laws and whose sessions stand under their own
  -- names, an EndSession that succeeds found an open session, and after it and any further calls
  -- of StartSession, EndSession and ExecInSession, none of which overlaps another and none of
  -- which draws the same id, the session is as EndSession completed it, and neither EndSession
  -- nor ExecInSession succeeds on it.
  pub ended_stays :
      (xs : List SessionCall) (id : String) (σ : System S M N W) (cfg : ExecConfig)
      → AreKeyed σ.sessions
      → IsNotDrawn id xs
      → (end_session c id σ).0 ≡ ok tt
      → let σ' = call_all c xs (end_session c id σ).1 in
        ((s : Session) × (st.get id σ.sessions ≡ ok s)
          × (is_open s.state ≡ true)
          × (st.get id σ'.sessions ≡ ok (completed_at s (c.clock σ.world))))
        × ((end_session c id σ').0 ≢ ok tt)
        × ((exec_in_session c id cfg σ').0.1 ≢ none)
  ended_stays xs id σ cfg keyed fresh h =
      let ((s, e, o, l), again, used) = end_session_final c st laws id σ cfg conf (keyed id) h in
      let t = c.clock σ.world in
      let after = (end_session c id σ).1 in
      let kept =
        call_all_closed xs after id (completed_at s t) (call-AreKeyed (ends id) σ keyed) fresh l
          refl in
      let (no_end, no_exec) =
        closed_refuses id (call_all c xs after) (completed_at s t) cfg kept refl in
      ((s, e, o, kept), no_end, no_exec)
