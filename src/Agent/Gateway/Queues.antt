-- ===== src/Agent/Gateway/Queues.antt =====
-- The inboxes as bounded queues, one for each receiver and type of message.
use mathlib.Core.List.{append-nil, append_assoc}
use sandboxmatrix.Base.{
  ℕ, ◌≤◌, String, ◌≡◌, refl, sym, ap, ◌∙◌, false, List, [], ◌∷◌, ◌++◌, length, length-append,
  length-keep-le, keep-append, keep, not, arith, str_eq, eq_iff, inl, inr, Bool-cases,
}
use sandboxmatrix.Base.Dict.{lookup-insert}
use sandboxmatrix.Agent.Gateway.{
  Message, Gateway, max_inbox_size, inbox, stamped, has_type, deliver, send,
}
use sandboxmatrix.Agent.Gateway.Traffic.{
  Op, run_op, run, put_at, taken_at, put, taken, inbox-send, inbox-receive, inbox-receive_by_type,
  inbox-subscribe,
}

pub keep_same :
    (t : String) (ms : List Message)
    → (keep (has_type t) (keep (has_type t) ms) ≡ keep (has_type t) ms)
      × (keep (has_type t) (keep (λ x. not (has_type t x)) ms) ≡ [])
keep_same t [] = (refl, refl)
keep_same t (m ∷ ms) = let (p, q) = keep_same t ms in (ground (arith, p), ground (arith, q))

keep_other :
    (t t' : String) (ms : List Message)
    → str_eq t' t ≡ false
    → (keep (has_type t) (keep (has_type t') ms) ≡ [])
      × (keep (has_type t) (keep (λ x. not (has_type t' x)) ms) ≡ keep (has_type t) ms)
keep_other t t' [] ne = (refl, refl)
keep_other t t' (m ∷ ms) ne =
    let (p, q) = keep_other t t' ms ne in
    (
      ground (arith, p, eq_iff m.type t, eq_iff m.type t', eq_iff t' t),
      ground (arith, q, eq_iff m.type t, eq_iff m.type t', eq_iff t' t),
    )

keep-split :
    (t t' : String) (ms : List Message)
    → keep (has_type t) ms
      ≡ keep (has_type t) (keep (has_type t') ms)
        ++ keep (has_type t) (keep (λ x. not (has_type t' x)) ms)
keep-split t t' ms = elim (Bool-cases (str_eq t' t)) [
  | inl same ↦
      let (p, q) = keep_same t ms in
      ground (arith, eq_iff t' t, p, q, append-nil (keep (has_type t) ms))
  | inr other ↦ let (p, q) = keep_other t t' ms other in ground (arith, p, q)
]

queue_trans :
    (x p q t y u z : List Message) → x ++ p ≡ t ++ y → y ++ q ≡ u ++ z → x ++ (p ++ q) ≡ t ++ u ++ z
queue_trans x p q t y u z e f =
    sym (append_assoc x p q)
    ∙ ap (λ l. l ++ q) e
    ∙ append_assoc t y q
    ∙ ap (◌++◌ t) f
    ∙ sym (append_assoc t u z)

module _ {H : Type 0} where
  step-queue :
      (k t : String) (o : Op H) (g : Gateway H)
      → keep (has_type t) (inbox k g) ++ keep (has_type t) (put_at k o g)
        ≡ keep (has_type t) (taken_at k o g) ++ keep (has_type t) (inbox k (run_op o g))
  step-queue k t (Op.sends id now msg) g =
      let put' = put_at k (Op.sends id now msg) g in
      sym (keep-append (has_type t) (inbox k g) put')
      ∙ ap (keep (has_type t)) (sym (inbox-send id now msg g k))
  step-queue k t (Op.receives j) g =
      let (p, q) = inbox-receive j g k in
      ground (arith, eq_iff j k, append-nil (keep (has_type t) (inbox k g)))
  step-queue k t (Op.receives_type j t') g =
      let (p, q) = inbox-receive_by_type j t' g k in
      ground
        (arith, eq_iff j k, append-nil (keep (has_type t) (inbox k g)), keep-split t t' (inbox k g))
  step-queue k t (Op.subscribes j h) g =
      append-nil (keep (has_type t) (inbox k g))
      ∙ ap (keep (has_type t)) (sym (inbox-subscribe j h g k))

  -- For any sequence of operations, receiver and type, the messages of the type that were pending
  -- at first, followed by those accepted, are those handed out, followed by those still pending:
  -- each once and in order.
  pub run_queue :
      (k t : String) (os : List (Op H)) (g : Gateway H)
      → keep (has_type t) (inbox k g) ++ keep (has_type t) (put k os g)
        ≡ keep (has_type t) (taken k os g) ++ keep (has_type t) (inbox k (run os g))
  run_queue k t [] g = append-nil (keep (has_type t) (inbox k g))
  run_queue k t (o ∷ os) g =
      let kept = keep (has_type t) in
      let g' = run_op o g in
      ap (◌++◌ (kept (inbox k g))) (keep-append (has_type t) (put_at k o g) (put k os g'))
      ∙ queue_trans (kept (inbox k g)) (kept (put_at k o g)) (kept (put k os g'))
          (kept (taken_at k o g)) (kept (inbox k g')) (kept (taken k os g'))
          (kept (inbox k (run os g'))) (step-queue k t o g) (run_queue k t os g')
      ∙ ap (λ l. l ++ kept (inbox k (run os g')))
          (sym (keep-append (has_type t) (taken_at k o g) (taken k os g')))

  -- No inbox holds more than the maximum.
  abbrev pub IsBounded : Gateway H → Type 0
  IsBounded g = (k : String) → length (inbox k g) ≤ max_inbox_size

  length-send :
      (id : String) (now : ℕ) (msg : Message) (g : Gateway H) (k : String)
      → length (inbox k g) ≤ max_inbox_size
      → length (inbox k (send id now msg g).1) ≤ max_inbox_size
  unfolding send deliver
  length-send id now msg g k h = ground (
    arith,
    eq_iff msg.to k,
    lookup-insert msg.to k (inbox msg.to g ++ stamped id now msg ∷ []) g.inboxes,
    length-append (inbox msg.to g) (stamped id now msg ∷ []),
  )

  step-IsBounded : (o : Op H) (g : Gateway H) → IsBounded g → IsBounded (run_op o g)
  step-IsBounded (Op.sends id now msg) g h k = length-send id now msg g k (h k)
  step-IsBounded (Op.receives j) g h k = ground (arith, inbox-receive j g k, h k)
  step-IsBounded (Op.receives_type j t) g h k =
      let l = length-keep-le (λ x. not (has_type t x)) (inbox k g) in
      ground (arith, inbox-receive_by_type j t g k, h k)
  step-IsBounded (Op.subscribes j x) g h k = rw (inbox-subscribe j x g k) (h k)

  -- No sequence of operations makes an inbox hold more than the maximum number of messages, if
  -- none does at first.
  pub run-IsBounded : (os : List (Op H)) (g : Gateway H) → IsBounded g → IsBounded (run os g)
  run-IsBounded [] g h = h
  run-IsBounded (o ∷ os) g h = run-IsBounded os (run_op o g) (step-IsBounded o g h)
