-- ===== src/Agent/Gateway/Fanout.antt =====
-- Broadcast as a run of Send, up to the first one that fails.
use sandboxmatrix.Base.{ℕ, suc, ◌+◌, ◌++◌, String, ◌≡◌, ◌⊎◌, List, [], ◌∷◌, length}
use sandboxmatrix.Base.Action.{Error, Result, wrap, ok, err}
use sandboxmatrix.Agent.Gateway.{Message, Gateway, send}
use sandboxmatrix.Agent.Gateway.Traffic.{Op, run_op, run}

module _ {H : Type 0} where
  -- What an operation reports: only Send can fail.
  abbrev pub result : Op H → Gateway H → Result (Unit {0})
  result (Op.sends id now msg) g = (send id now msg g).0
  result (Op.receives k) g = ok tt
  result (Op.receives_type k t) g = ok tt
  result (Op.subscribes k h) g = ok tt

  -- The calls of Send that a Broadcast makes.
  abbrev pub broadcast_sends :
      (ℕ → String) → (ℕ → ℕ) → (String → Message) → ℕ → List String → List (Op H)
  broadcast_sends ids now msg k [] = []
  broadcast_sends ids now msg k (to ∷ targets) =
      Op.sends (ids k) (now k) (msg to) ∷ broadcast_sends ids now msg (suc k) targets

  -- Every one of the calls succeeds, each in the state that the one before it leaves.
  abbrev pub AllSent : List (Op H) → Gateway H → Type 0
  AllSent [] g = Unit {0}
  AllSent (o ∷ os) g = (result o g ≡ ok tt) × AllSent os (run_op o g)

  -- Every target is sent to, or the first Send that fails ends the loop, and its error is returned.
  abbrev pub Fans :
      (ℕ → String)
      → (ℕ → ℕ)
      → (String → Message)
      → ℕ
      → List String
      → Gateway H
      → Result (Unit {0}) × Gateway H
      → Type 0
  Fans ids now msg k targets g out =
      (AllSent (broadcast_sends ids now msg k targets) g
        × (out ≡ (ok tt, run (broadcast_sends ids now msg k targets) g)))
      ⊎ ((sent : List String) × (to : String) × (unsent : List String) × (e : Error) × (targets
            ≡ sent ++ to ∷ unsent)
          × AllSent (broadcast_sends ids now msg k sent) g
          × (let g' = run (broadcast_sends ids now msg k sent) g in
              let failing = send (ids (k + length sent)) (now (k + length sent)) (msg to) g' in
              (failing.0 ≡ err e) × (out ≡ (err (wrap "broadcast" e), failing.1))))
