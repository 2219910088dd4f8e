-- ===== src/Controller/Lifecycle/States.antt =====
-- The states that a sandbox passes through under Stop, Start and Destroy.
use mathlib.Core.Path.{subst}
use sandboxmatrix.Base.{
  String, ◌≡◌, ◌⊎◌, inl, inr, Bool, true, false, Option, none, some, arith, str_eq, eq_iff,
  Bool-cases, ap,
}
use sandboxmatrix.Base.Action.{Result, ok, err, Result-cases}
use sandboxmatrix.Api.{Sandbox, SandboxState, creating, running, stopped, error, ready}
use sandboxmatrix.State.{StoreLaws}
use sandboxmatrix.Controller.{
  System, Controller, Command, stops, starts, destroys, perform, stop, start, stopped_at,
  started_at,
}
use sandboxmatrix.Controller.Lifecycle.{
  name_of, IsKeyed, Puts, stop_succeeds, start_succeeds, destroy_succeeds, perform_fails,
}

-- The changes of state, `none` standing for no record, that the operations on a sandbox may make.
unfoldable pub allowed : Option SandboxState → Option SandboxState → Bool
allowed none (some creating) = true
allowed (some creating) (some running) = true
allowed (some creating) (some ready) = true
allowed (some creating) (some error) = true
allowed (some running) (some ready) = true
allowed (some running) (some error) = true
allowed (some running) (some stopped) = true
allowed (some ready) (some stopped) = true
allowed (some stopped) (some running) = true
allowed (some s) none = true
allowed _ _ = false

pub data Reach (a : Option SandboxState) : Option SandboxState → Type 0 where
  here : Reach a a
  next : {b d : Option SandboxState} → Reach a b → allowed b d ≡ true → Reach a d

abbrev pub shown : Result Sandbox → Option SandboxState
shown (ok sb) = some sb.status.state
shown (err e) = none

module _ {S M N W : Type 0} (c : Controller S M N W) where
  abbrev pub state_of : String → System S M N W → Option SandboxState
  state_of k σ = shown (c.store.get k σ.sandboxes)

abbrev pub Moves : Option SandboxState → Option SandboxState → Type 0
Moves a b = (b ≡ a) ⊎ (allowed a b ≡ true)

Reach-after : {a b d : Option SandboxState} → allowed a b ≡ true → Reach b d → Reach a d
Reach-after h here = next here h
Reach-after h (next r g) = next (Reach-after h r) g

Reach-before : {a b d : Option SandboxState} → Moves a b → Reach b d → Reach a d
Reach-before {a} {b} {d} (inl e) r = subst (λ s. Reach s d) e r
Reach-before (inr h) r = Reach-after h r

module _ {S M N W : Type 0} (c : Controller S M N W) where
  Puts-Moves :
      (name : String) (old new : Sandbox) (σ σ' : System S M N W) (k : String)
      → Puts c name new σ σ'
      → c.store.get name σ.sandboxes ≡ ok old
      → allowed (some old.status.state) (some new.status.state) ≡ true
      → Moves (state_of c k σ) (state_of c k σ')
  Puts-Moves name old new σ σ' k put e a = elim (Bool-cases (str_eq name k)) [
    | inl same ↦ let eq : name ≡ k = (eq_iff name k).0 same in inr (rw (put k, same, ← eq, e) a)
    | inr other ↦ inl (rw (put k, other))
  ]

  Puts-IsKeyed :
      (name : String) (new : Sandbox) (σ σ' : System S M N W)
      → Puts c name new σ σ'
      → name_of new ≡ name
      → IsKeyed c σ
      → IsKeyed c σ'
  Puts-IsKeyed name new σ σ' put n keyed k sb h = ground (arith, put k, eq_iff name k, keyed k sb)

module _ {S M N W : Type 0} (c : Controller S M N W) (laws : StoreLaws c.store name_of) where
  -- Over a store that keeps the store laws and whose records stand under their own names, one
  -- Stop, Start or Destroy makes at most one allowed change of state at any one sandbox, and the
  -- records still stand under their own names.
  pub perform_refines :
      (x : Command) (σ : System S M N W)
      → IsKeyed c σ
      → ((k : String) → Moves (state_of c k σ) (state_of c k (perform c x σ).1))
        × IsKeyed c (perform c x σ).1
  unfolding perform allowed
  perform_refines x σ keyed = elim (Result-cases (perform c x σ).0) [
    | inl (u, h) ↦ done x h
    | inr (e, h) ↦ (
      λ k. inl (ap shown (perform_fails c laws x σ e h k)),
      λ k sb g. keyed k sb (ground (arith, perform_fails c laws x σ e h k)),
    )
  ]
    where
      done :
          (y : Command)
          → (perform c y σ).0 ≡ ok tt
          → ((k : String) → Moves (state_of c k σ) (state_of c k (perform c y σ).1))
            × IsKeyed c (perform c y σ).1
      done (stops name) h =
          let (sb, t, e, a, put) = stop_succeeds c laws name σ keyed h in
          (
            λ k.
                Puts-Moves c name sb (stopped_at c sb t) σ (stop c name σ).1 k put e (ground arith),
            Puts-IsKeyed c name (stopped_at c sb t) σ (stop c name σ).1 put (keyed name sb e) keyed,
          )
      done (starts name) h =
          let (sb, t, e, a, put) = start_succeeds c laws name σ keyed h in
          (
            λ k.
                Puts-Moves c name sb (started_at c sb t) σ (start c name σ).1 k put e
                  (ground arith),
            Puts-IsKeyed c name (started_at c sb t) σ (start c name σ).1 put (keyed name sb e)
                keyed,
          )
      done (destroys name) h =
          let (gone, others) = destroy_succeeds c laws name σ h in
          (
            λ k. elim (Bool-cases (str_eq name k)) [
              | inl same ↦ let eq : name ≡ k = (eq_iff name k).0 same in ground (arith, gone.1)
              | inr other ↦ inl (ap shown (others k other))
            ],
            λ k sb g. ground (arith, gone.1, eq_iff name k, others k, keyed k sb),
          )
