-- ===== src/Controller/Lifecycle/Effects.antt =====
-- What Stop, Start and Destroy do on each of their ways out.
use sandboxmatrix.Base.{ℕ, String, ◌≡◌, true, false, str_eq, ◌⊎◌, inl, inr}
use sandboxmatrix.Base.Action.{Error, ok, err, Result-cases}
use sandboxmatrix.Api.{Sandbox}
use sandboxmatrix.State.{StoreLaws}
use sandboxmatrix.Controller.{
  System, Controller, Command, stops, starts, destroys, perform, is_active, is_stopped, stopped_at,
  started_at,
}
use sandboxmatrix.Controller.Lifecycle.{
  name_of, IsKeyed, Puts, SameSandboxes, stop_succeeds, start_succeeds, destroy_succeeds,
  perform_fails,
}

module _ {S M N W : Type 0} (c : Controller S M N W) where
  -- What a method that succeeds has found and done.
  abbrev pub Effect : Command → System S M N W → System S M N W → Type 0
  Effect (stops name) σ σ' =
      (sb : Sandbox) × (t : ℕ) × (c.store.get name σ.sandboxes ≡ ok sb)
      × (is_active sb.status.state ≡ true)
      × Puts c name (stopped_at c sb t) σ σ'
  Effect (starts name) σ σ' =
      (sb : Sandbox) × (t : ℕ) × (c.store.get name σ.sandboxes ≡ ok sb)
      × (is_stopped sb.status.state ≡ true)
      × Puts c name (started_at c sb t) σ σ'
  Effect (destroys name) σ σ' =
      ((x : Error) × (c.store.get name σ'.sandboxes ≡ err x))
      × ((k : String)
          → str_eq name k ≡ false
          → c.store.get k σ'.sandboxes ≡ c.store.get k σ.sandboxes)

module _ {S M N W : Type 0} (c : Controller S M N W) (laws : StoreLaws c.store name_of) where
  perform_succeeds :
      (x : Command) (σ : System S M N W)
      → IsKeyed c σ
      → (perform c x σ).0 ≡ ok tt
      → Effect c x σ (perform c x σ).1
  unfolding perform
  perform_succeeds (stops name) σ keyed h = stop_succeeds c laws name σ keyed h
  perform_succeeds (starts name) σ keyed h = start_succeeds c laws name σ keyed h
  perform_succeeds (destroys name) σ keyed h = destroy_succeeds c laws name σ h

  -- Over a store that keeps the store laws and whose records stand under their own names, a Stop,
  -- Start or Destroy either returns an error and leaves every record as it was, or succeeds: a
  -- Stop on a running or ready sandbox, which is stopped then, a Start on a stopped one, which is
  -- running then, a Destroy with no record left, every other sandbox being as it was.
  pub perform_effects :
      (x : Command) (σ : System S M N W)
      → IsKeyed c σ
      → (((perform c x σ).0 ≡ ok tt) × Effect c x σ (perform c x σ).1)
        ⊎ ((e : Error) × ((perform c x σ).0 ≡ err e) × SameSandboxes c σ (perform c x σ).1)
  perform_effects x σ keyed = elim (Result-cases (perform c x σ).0) [
    | inl (u, h) ↦ inl (h, perform_succeeds x σ keyed h)
    | inr (e, h) ↦ inr (e, h, perform_fails c laws x σ e h)
  ]
