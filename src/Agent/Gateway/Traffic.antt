-- ===== src/Agent/Gateway/Traffic.antt =====
-- Sequences of the gateway's operations: each takes the lock once, so these are the orders in which
-- concurrent callers can meet. Broadcast is several calls of Send.
use mathlib.Core.List.{append-nil}
use sandboxmatrix.Base.{
  ℕ, String, ◌≡◌, refl, List, [], ◌∷◌, ◌++◌, keep, not, arith, str_eq, eq_iff, if◌then◌else◌, inl,
  inr, List-cases,
}
use sandboxmatrix.Base.Dict.{Dict, lookup, insert, remove, lookup-insert, lookup-remove}
use sandboxmatrix.Base.Action.{is_ok}
use sandboxmatrix.Agent.Gateway.{
  Message, Gateway, or_empty, inbox, stamped, has_type, deliver, send, receive, receive_by_type,
  put_back, subscribe,
}

pub data Op (H : Type 0) : Type 0 where
  sends : String → ℕ → Message → Op H
  receives : String → Op H
  receives_type : String → String → Op H
  subscribes : String → H → Op H

-- The inbox of k after an insertion, a removal, or the messages that a receive leaves.
inbox-insert :
    (j k : String) (ms : List Message) (d : Dict (List Message))
    → or_empty (lookup k (insert j ms d)) ≡ (if str_eq j k then ms else or_empty (lookup k d))
inbox-insert j k ms d = ground (arith, lookup-insert j k ms d)

inbox-remove :
    (j k : String) (d : Dict (List Message))
    → or_empty (lookup k (remove j d)) ≡ (if str_eq j k then [] else or_empty (lookup k d))
inbox-remove j k d = ground (arith, lookup-remove j k d)

inbox-put_back :
    (j k : String) (ms : List Message) (d : Dict (List Message))
    → or_empty (lookup k (put_back j ms d)) ≡ (if str_eq j k then ms else or_empty (lookup k d))
inbox-put_back j k [] d = inbox-remove j k d
inbox-put_back j k (m ∷ ms) d = inbox-insert j k (m ∷ ms) d

module _ {H : Type 0} where
  abbrev pub run_op : Op H → Gateway H → Gateway H
  run_op (Op.sends id now msg) g = (send id now msg g).1
  run_op (Op.receives k) g = (receive k g).1
  run_op (Op.receives_type k t) g = (receive_by_type k t g).1
  run_op (Op.subscribes k h) g = subscribe k h g

  abbrev pub run : List (Op H) → Gateway H → Gateway H
  run [] g = g
  run (o ∷ os) g = run os (run_op o g)

  -- The message that an operation puts in the inbox of k, as it is stored.
  abbrev pub put_at : String → Op H → Gateway H → List Message
  put_at k (Op.sends id now msg) g =
      if is_ok (send id now msg g).0
      then (if str_eq msg.to k then stamped id now msg ∷ [] else [])
      else []
  put_at k (Op.receives j) g = []
  put_at k (Op.receives_type j t) g = []
  put_at k (Op.subscribes j h) g = []

  -- The messages that an operation returns from the inbox of k.
  abbrev pub taken_at : String → Op H → Gateway H → List Message
  taken_at k (Op.sends id now msg) g = []
  taken_at k (Op.receives j) g = if str_eq j k then (receive j g).0 else []
  taken_at k (Op.receives_type j t) g = if str_eq j k then (receive_by_type j t g).0 else []
  taken_at k (Op.subscribes j h) g = []

  abbrev pub put : String → List (Op H) → Gateway H → List Message
  put k [] g = []
  put k (o ∷ os) g = put_at k o g ++ put k os (run_op o g)

  abbrev pub taken : String → List (Op H) → Gateway H → List Message
  taken k [] g = []
  taken k (o ∷ os) g = taken_at k o g ++ taken k os (run_op o g)

  pub inbox-send :
      (id : String) (now : ℕ) (msg : Message) (g : Gateway H) (k : String)
      → inbox k (send id now msg g).1 ≡ inbox k g ++ put_at k (Op.sends id now msg) g
  unfolding send deliver
  inbox-send id now msg g k = ground (
    arith,
    eq_iff msg.to k,
    append-nil (inbox k g),
    inbox-insert msg.to k (inbox msg.to g ++ stamped id now msg ∷ []) g.inboxes,
  )

  pub inbox-receive :
      (j : String) (g : Gateway H) (k : String)
      → (inbox k (receive j g).1 ≡ (if str_eq j k then [] else inbox k g))
        × ((receive j g).0 ≡ inbox j g)
  unfolding receive
  inbox-receive j g k = elim (List-cases (inbox j g)) [
    | inl e ↦ (ground (arith, eq_iff j k), rw (receive, e) refl)
    | inr (m, ms, e) ↦ (ground (arith, inbox-remove j k g.inboxes), rw (receive, e) refl)
  ]

  pub inbox-receive_by_type :
      (j t : String) (g : Gateway H) (k : String)
      → (inbox k (receive_by_type j t g).1
          ≡ (if str_eq j k then keep (λ x. not (has_type t x)) (inbox k g) else inbox k g))
        × ((receive_by_type j t g).0 ≡ keep (has_type t) (inbox j g))
  unfolding receive_by_type
  inbox-receive_by_type j t g k =
      let left = keep (λ x. not (has_type t x)) (inbox j g) in
      elim (List-cases (inbox j g)) [
        | inl e ↦ (ground (arith, eq_iff j k), rw (receive_by_type, e) refl)
        | inr (m, ms, e) ↦ (
          ground (arith, eq_iff j k, inbox-put_back j k left g.inboxes),
          rw (receive_by_type, e) refl,
        )
      ]

  pub inbox-subscribe :
      (j : String) (h : H) (g : Gateway H) (k : String) → inbox k (subscribe j h g) ≡ inbox k g
  unfolding subscribe
  inbox-subscribe j h g k = refl
