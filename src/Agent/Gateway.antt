-- ===== src/Agent/Gateway.antt =====
-- internal/agent/a2a/gateway.go. Instant 0 is the zero time; a new id and the time of the call are
-- arguments. A subscribed handler is a callback of the caller's, run outside the lock after the message
-- is stored: its calls are listed in `calls`, and what it does is not modelled.
pub mod Traffic
pub mod Queues
pub mod Fanout
use sandboxmatrix.Base.{
  ℕ, zero, suc, String, Bool, ◌&&◌, not, Option, none, some, List, [], ◌∷◌, ◌++◌, map, length, keep,
  leb, ◌==◌, str_eq, if◌then◌else◌,
}
use sandboxmatrix.Base.Dict.{Dict, lookup, insert, remove}
use sandboxmatrix.Base.Action.{Action, Result, Error, message, quoted, ok, err, wrapped}

pub record Message : Type 0 where
  pub id : String
  pub from : String
  pub to : String
  pub type : String
  pub payload : String
  pub created_at : ℕ

pub record Gateway (H : Type 0) : Type 0 where
  pub inboxes : Dict (List Message)
  pub handlers : Dict (List H)
  pub calls : List (H × Message)

abbrev pub max_inbox_size : ℕ
max_inbox_size = 10000

-- m[k] of a map of slices: a missing key reads as the empty slice.
abbrev pub or_empty : {A : Type 0} → Option (List A) → List A
or_empty none = []
or_empty (some xs) = xs

abbrev pub inbox : {H : Type 0} → String → Gateway H → List Message
inbox k g = or_empty (lookup k g.inboxes)

-- The id and the time that Send sets if the message has none.
abbrev pub stamped : String → ℕ → Message → Message
stamped id now msg = record msg {
  id = if str_eq msg.id "" then id else msg.id;
  created_at = if msg.created_at == 0 then now else msg.created_at;
}

-- msg.Type == msgType
abbrev pub has_type : String → Message → Bool
has_type t m = str_eq m.type t

-- if len(remaining) == 0 { delete(g.inboxes, k) } else { g.inboxes[k] = remaining }
abbrev pub put_back : String → List Message → Dict (List Message) → Dict (List Message)
put_back k [] d = remove k d
put_back k (m ∷ ms) d = insert k (m ∷ ms) d

abbrev pub broadcast_message : String → String → String → String → Message
broadcast_message from type payload to = record {
  id = "";
  from = from;
  to = to;
  type = type;
  payload = payload;
  created_at = 0;
}

module _ {H : Type 0} where
  unfoldable pub new_gateway : Gateway H
  new_gateway = record { inboxes = []; handlers = []; calls = [] }

  -- The critical section of Send and the calls of the handlers.
  unfoldable pub deliver : Message → Action (Gateway H) (Unit {0})
  deliver msg g =
      if leb max_inbox_size (length (inbox msg.to g))
      then (err (quoted "inbox is full" msg.to), g)
      else (
        ok tt,
        record g {
          inboxes = insert msg.to (inbox msg.to g ++ msg ∷ []) g.inboxes;
          calls = g.calls ++ map (λ h. (h, msg)) (or_empty (lookup msg.to g.handlers));
        },
      )

  unfoldable pub send : String → ℕ → Message → Action (Gateway H) (Unit {0})
  unfolding deliver
  send id now msg g =
      if str_eq msg.from ""
      then (err (message "message 'from' field is required"), g)
      else if str_eq msg.to ""
      then (err (message "message 'to' field is required"), g)
      else if str_eq msg.type ""
      then (err (message "message 'type' field is required"), g)
      else deliver (stamped id now msg) g

  unfoldable pub receive : String → Gateway H → List Message × Gateway H
  receive sandbox g = elim (inbox sandbox g) [
    | [] ↦ ([], g)
    | m ∷ ms ↦ (m ∷ ms, record g { inboxes = remove sandbox g.inboxes })
  ]

  unfoldable pub peek : String → Gateway H → List Message
  peek sandbox g = inbox sandbox g

  unfoldable pub receive_by_type : String → String → Gateway H → List Message × Gateway H
  receive_by_type sandbox t g = elim (inbox sandbox g) [
    | [] ↦ ([], g)
    | m ∷ ms ↦ (
      keep (has_type t) (m ∷ ms),
      record g { inboxes = put_back sandbox (keep (λ x. not (has_type t x)) (m ∷ ms)) g.inboxes },
    )
  ]

  unfoldable pub subscribe : String → H → Gateway H → Gateway H
  subscribe sandbox h g = record g {
    handlers = insert sandbox (or_empty (lookup sandbox g.handlers) ++ h ∷ []) g.handlers;
  }

  -- The message to the k-th target takes the id and the time of the k-th call.
  unfoldable pub broadcast_loop :
      (ℕ → String) → (ℕ → ℕ) → (String → Message) → ℕ → List String → Action (Gateway H) (Unit {0})
  unfolding send
  broadcast_loop ids now msg k [] g = (ok tt, g)
  broadcast_loop ids now msg k (to ∷ targets) g =
      let sent = send (ids k) (now k) (msg to) g in
      let rest = broadcast_loop ids now msg (suc k) targets sent.1 in
      elim sent.0 [ err e ↦ (wrapped "broadcast" (err e), sent.1) | ok u ↦ rest ]

  unfoldable pub broadcast :
      (ℕ → String)
      → (ℕ → ℕ)
      → String
      → List String
      → String
      → String
      → Action (Gateway H) (Unit {0})
  unfolding broadcast_loop
  broadcast ids now from targets type payload g =
      if str_eq from ""
      then (err (message "'from' field is required"), g)
      else if length targets == 0
      then (err (message "at least one target is required"), g)
      else if str_eq type ""
      then (err (message "message 'type' field is required"), g)
      else broadcast_loop ids now (broadcast_message from type payload) 0 targets g
