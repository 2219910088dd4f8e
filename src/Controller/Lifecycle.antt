-- ===== src/Controller/Lifecycle.antt =====
-- Stop, Start and Destroy as seen through the sandbox store.
pub mod States
pub mod Following
pub mod Effects
use sandboxmatrix.Base.{ℕ, String, ◌≡◌, inl, inr, true, false, arith, str_eq, if◌then◌else◌}
use sandboxmatrix.Base.Action.{Error, ok, err, Result-cases}
use sandboxmatrix.Api.{Sandbox}
use sandboxmatrix.State.{StoreLaws}
use sandboxmatrix.Controller.{
  System, Controller, is_active, is_stopped, stop, start, destroy, stopped_at, started_at, Command,
  stops, starts, destroys, perform,
}

abbrev pub name_of : Sandbox → String
name_of sb = sb.metadata.name

module _ {S M N W : Type 0} (c : Controller S M N W) where
  -- A record is stored under its own name.
  abbrev pub IsKeyed : System S M N W → Type 0
  IsKeyed σ = (k : String) (sb : Sandbox) → c.store.get k σ.sandboxes ≡ ok sb → name_of sb ≡ k

  -- What `σ'` shows at a name: the new record there, and the old one everywhere else.
  abbrev pub Puts : String → Sandbox → System S M N W → System S M N W → Type 0
  Puts name sb σ σ' =
      (k : String)
      → c.store.get k σ'.sandboxes ≡ (if str_eq name k then ok sb else c.store.get k σ.sandboxes)

  abbrev pub SameSandboxes : System S M N W → System S M N W → Type 0
  SameSandboxes σ σ' = (k : String) → c.store.get k σ'.sandboxes ≡ c.store.get k σ.sandboxes

module _ {S M N W : Type 0} (c : Controller S M N W) (laws : StoreLaws c.store name_of) where
  -- Over a store that keeps the store laws and whose records stand under their own names, a Stop
  -- that succeeds found the sandbox running or ready, and leaves it stopped and every other
  -- sandbox as it was.
  pub stop_succeeds :
      (name : String) (σ : System S M N W)
      → IsKeyed c σ
      → (stop c name σ).0 ≡ ok tt
      → (sb : Sandbox) × (t : ℕ) × (c.store.get name σ.sandboxes ≡ ok sb)
        × (is_active sb.status.state ≡ true)
        × Puts c name (stopped_at c sb t) σ (stop c name σ).1
  unfolding stop
  stop_succeeds name σ keyed h = elim (Result-cases (c.store.get name σ.sandboxes)) [
    | inl (sb, e) ↦
        let t = c.clock (c.runtime.stop sb.status.runtime_id σ.world).1 in
        (
          sb,
          t,
          e,
          ground arith,
          λ k. ground (arith, laws.get-save (stopped_at c sb t) σ.sandboxes k, keyed name sb e),
        )
    | inr (x, e) ↦ absurd (ground arith)
  ]

  -- Over a store that keeps the store laws and whose records stand under their own names, a Start
  -- that succeeds found the sandbox stopped, and leaves it running, with no stop time, and every
  -- other sandbox as it was.
  pub start_succeeds :
      (name : String) (σ : System S M N W)
      → IsKeyed c σ
      → (start c name σ).0 ≡ ok tt
      → (sb : Sandbox) × (t : ℕ) × (c.store.get name σ.sandboxes ≡ ok sb)
        × (is_stopped sb.status.state ≡ true)
        × Puts c name (started_at c sb t) σ (start c name σ).1
  unfolding start
  start_succeeds name σ keyed h = elim (Result-cases (c.store.get name σ.sandboxes)) [
    | inl (sb, e) ↦
        let t = c.clock (c.runtime.start sb.status.runtime_id σ.world).1 in
        (
          sb,
          t,
          e,
          ground arith,
          λ k. ground (arith, laws.get-save (started_at c sb t) σ.sandboxes k, keyed name sb e),
        )
    | inr (x, e) ↦ absurd (ground arith)
  ]

  destroy_deletes :
      (name : String) (σ : System S M N W)
      → (destroy c name σ).0 ≡ ok tt
      → ((c.store.delete name σ.sandboxes).0 ≡ ok tt)
        × ((destroy c name σ).1.sandboxes ≡ (c.store.delete name σ.sandboxes).1)
  unfolding destroy
  destroy_deletes name σ h = (ground arith, ground arith)

  -- Over a store that keeps the store laws, a Destroy that succeeds leaves no record of the
  -- sandbox, and every other sandbox as it was.
  pub destroy_succeeds :
      (name : String) (σ : System S M N W)
      → (destroy c name σ).0 ≡ ok tt
      → ((x : Error) × (c.store.get name (destroy c name σ).1.sandboxes ≡ err x))
        × ((k : String)
            → str_eq name k ≡ false
            → c.store.get k (destroy c name σ).1.sandboxes ≡ c.store.get k σ.sandboxes)
  destroy_succeeds name σ h =
      let d = destroy_deletes name σ h in
      rw d.1 (laws.delete_self name σ.sandboxes d.0, λ k. laws.delete_other name σ.sandboxes k)

  -- Over a store that keeps the store laws, a Stop, Start or Destroy that returns an error leaves
  -- every sandbox record as it was.
  pub perform_fails :
      (x : Command) (σ : System S M N W) (e : Error)
      → (perform c x σ).0 ≡ err e
      → SameSandboxes c σ (perform c x σ).1
  unfolding perform stop start destroy
  perform_fails (stops name) σ e h k = elim (Result-cases (c.store.get name σ.sandboxes)) [
    | inl (sb, f) ↦
        let t = c.clock (c.runtime.stop sb.status.runtime_id σ.world).1 in
        ground (arith, laws.save_fails (stopped_at c sb t) σ.sandboxes k e)
    | inr (x, f) ↦ ground arith
  ]
  perform_fails (starts name) σ e h k = elim (Result-cases (c.store.get name σ.sandboxes)) [
    | inl (sb, f) ↦
        let t = c.clock (c.runtime.start sb.status.runtime_id σ.world).1 in
        ground (arith, laws.save_fails (started_at c sb t) σ.sandboxes k e)
    | inr (x, f) ↦ ground arith
  ]
  perform_fails (destroys name) σ e h k = ground (arith, laws.delete_fails name σ.sandboxes k e)
