-- ===== src/Controller/Create/Flight.antt =====
-- A sandbox in flight: the store shows it as being created or as running, and a save moves it on.
use mathlib.Core.Path.{subst}
use sandboxmatrix.Base.{
  String, ◌≡◌, refl, sym, ◌∙◌, ap, ◌⊎◌, inl, inr, true, Option, some, arith, str_eq, eq_iff,
  eq_refl, Bool-cases,
}
use sandboxmatrix.Base.Action.{ok, Result-cases}
use sandboxmatrix.Api.{Sandbox, SandboxState, creating, running, ready, error}
use sandboxmatrix.State.{StoreLaws}
use sandboxmatrix.Controller.{System, Controller, save}
use sandboxmatrix.Controller.Lifecycle.{name_of}
use sandboxmatrix.Controller.Lifecycle.States.{allowed, Reach, next, Moves, shown, state_of}

pub Reach-Moves : {a b d : Option SandboxState} → Reach a b → Moves b d → Reach a d
Reach-Moves {a} {b} {d} r (inl e) = subst (λ s. Reach a s) (sym e) r
Reach-Moves r (inr h) = next r h

-- A state that may be saved over Creating and over Running.
abbrev pub Follows : SandboxState → Type 0
Follows s =
    (allowed (some creating) (some s) ≡ true)
    × ((s ≡ running) ⊎ (allowed (some running) (some s) ≡ true))

pub Follows-running : Follows running
unfolding allowed
Follows-running = (refl, inl refl)

pub Follows-ready : Follows ready
unfolding allowed
Follows-ready = (refl, inr refl)

pub Follows-error : Follows error
unfolding allowed
Follows-error = (refl, inr refl)

module _ {S M N W : Type 0} (c : Controller S M N W) where
  -- From σ to σ', every sandbox passes through allowed changes of state.
  abbrev pub Since : System S M N W → System S M N W → Type 0
  Since σ σ' = (k : String) → Reach (state_of c k σ) (state_of c k σ')

  -- The store shows the sandbox as being created or as running.
  abbrev pub InFlight : String → System S M N W → Type 0
  InFlight n σ = (state_of c n σ ≡ some creating) ⊎ (state_of c n σ ≡ some running)

module _ {S M N W : Type 0} (c : Controller S M N W) (laws : StoreLaws c.store name_of) where
  pub Moves-save :
      (sb : Sandbox) (σ : System S M N W) (k : String)
      → ((state_of c (name_of sb) σ ≡ some sb.status.state)
          ⊎ (allowed (state_of c (name_of sb) σ) (some sb.status.state) ≡ true))
      → Moves (state_of c k σ) (state_of c k (save c sb σ).1)
  Moves-save sb σ k m = elim (Result-cases (c.store.save sb σ.sandboxes).0) [
    | inr (e, f) ↦ inl (ap shown (laws.save_fails sb σ.sandboxes k e f))
    | inl (u, f) ↦ elim (Bool-cases (str_eq (name_of sb) k)) [
      | inr other ↦
          let g : c.store.get k (save c sb σ).1.sandboxes ≡ c.store.get k σ.sandboxes =
            ground (arith, laws.get-save sb σ.sandboxes k f) in
          inl (ap shown g)
      | inl same ↦
          let q : name_of sb ≡ k = (eq_iff (name_of sb) k).0 same in
          let new : state_of c k (save c sb σ).1 ≡ some sb.status.state =
            ground (arith, laws.get-save sb σ.sandboxes k f) in
          elim m [ inl e ↦ inl (new ∙ rw (← q) (sym e)) | inr a ↦ inr (rw (new, ← q) a) ]
    ]
  ]

  in_flight :
      (s : SandboxState) (n : String) (σ : System S M N W)
      → Follows s
      → InFlight c n σ
      → (state_of c n σ ≡ some s) ⊎ (allowed (state_of c n σ) (some s) ≡ true)
  in_flight s n σ f (inl e) = inr (rw e f.0)
  in_flight s n σ f (inr e) = elim f.1 [ inl r ↦ inl (e ∙ ap some (sym r)) | inr a ↦ inr (rw e a) ]

  pub Since-save :
      (sb : Sandbox) (σ0 σ : System S M N W)
      → Follows sb.status.state
      → InFlight c (name_of sb) σ
      → Since c σ0 σ
      → Since c σ0 (save c sb σ).1
  Since-save sb σ0 σ f i since k =
      Reach-Moves (since k) (Moves-save sb σ k (in_flight sb.status.state (name_of sb) σ f i))

  -- Saving a sandbox in flight as running leaves it in flight.
  pub InFlight-save :
      (sb : Sandbox) (σ : System S M N W)
      → sb.status.state ≡ running
      → InFlight c (name_of sb) σ
      → InFlight c (name_of sb) (save c sb σ).1
  InFlight-save sb σ r i = elim (Result-cases (c.store.save sb σ.sandboxes).0) [
    | inr (e, f) ↦ rw (ap shown (laws.save_fails sb σ.sandboxes (name_of sb) e f)) i
    | inl (u, f) ↦
        let g : c.store.get (name_of sb) (save c sb σ).1.sandboxes ≡ ok sb =
          ground (arith, laws.get-save sb σ.sandboxes (name_of sb) f, eq_refl (name_of sb)) in
        inr (ap shown g ∙ ap some r)
  ]
