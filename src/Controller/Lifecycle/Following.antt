-- ===== src/Controller/Lifecycle/Following.antt =====
-- A sandbox under Stop, Start and Destroy, against a machine that knows its state only.
use sandboxmatrix.Base.{
  Bool, false, String, ◌≡◌, refl, sym, inl, inr, true, Option, none, some, List, [], ◌∷◌, arith,
  str_eq, eq_iff, Bool-cases, ap,
}
use mathlib.Core.Path.{subst}
use sandboxmatrix.Base.Action.{is_ok, ok, Result-cases}
use sandboxmatrix.Api.{SandboxState, running, stopped, ready}
use sandboxmatrix.State.{StoreLaws}
use sandboxmatrix.Controller.{
  System, Controller, Command, stops, starts, destroys, perform, stop, start, is_active, is_stopped,
  run,
}
use sandboxmatrix.Controller.Lifecycle.{
  name_of, IsKeyed, stop_succeeds, start_succeeds, destroy_succeeds, perform_fails,
}
use sandboxmatrix.Controller.Lifecycle.States.{shown, state_of, perform_refines}

abbrev pub target : Command → String
target (stops name) = name
target (starts name) = name
target (destroys name) = name

-- What commands, each with whether it succeeded, make of the state of the sandbox k, `none` standing for
-- no record: a command on another sandbox, or one that fails, leaves it; a Stop that succeeds takes it from
-- running or ready to stopped, a Start from stopped to running, and a Destroy takes it away.
pub data Follows (k : String)
    : List (Command × Bool) → Option SandboxState → Option SandboxState → Type 0 where
  done : (a : Option SandboxState) → Follows k [] a a
  other :
      (x : Command) (succeeds : Bool) {xs : List (Command × Bool)} {a b : Option SandboxState}
      → str_eq (target x) k ≡ false
      → Follows k xs a b
      → Follows k ((x, succeeds) ∷ xs) a b
  fails :
      (x : Command) {xs : List (Command × Bool)} {a b : Option SandboxState}
      → Follows k xs a b
      → Follows k ((x, false) ∷ xs) a b
  stops_running :
      {xs : List (Command × Bool)} {b : Option SandboxState}
      → Follows k xs (some stopped) b
      → Follows k ((stops k, true) ∷ xs) (some running) b
  stops_ready :
      {xs : List (Command × Bool)} {b : Option SandboxState}
      → Follows k xs (some stopped) b
      → Follows k ((stops k, true) ∷ xs) (some ready) b
  starts_stopped :
      {xs : List (Command × Bool)} {b : Option SandboxState}
      → Follows k xs (some running) b
      → Follows k ((starts k, true) ∷ xs) (some stopped) b
  destroys_any :
      {xs : List (Command × Bool)} {a b : Option SandboxState}
      → Follows k xs none b
      → Follows k ((destroys k, true) ∷ xs) a b

stops_active :
    (k : String) (s : SandboxState) {xs : List (Command × Bool)} {b : Option SandboxState}
    → is_active s ≡ true
    → Follows k xs (some stopped) b
    → Follows k ((stops k, true) ∷ xs) (some s) b
stops_active k running h f = stops_running f
stops_active k ready h f = stops_ready f
stops_active k SandboxState.creating h f = absurd (ground arith)
stops_active k stopped h f = absurd (ground arith)
stops_active k SandboxState.error h f = absurd (ground arith)
stops_active k SandboxState.destroyed h f = absurd (ground arith)
stops_active k SandboxState.pending h f = absurd (ground arith)
stops_active k SandboxState.destroying h f = absurd (ground arith)
stops_active k SandboxState.paused h f = absurd (ground arith)

starts_if_stopped :
    (k : String) (s : SandboxState) {xs : List (Command × Bool)} {b : Option SandboxState}
    → is_stopped s ≡ true
    → Follows k xs (some running) b
    → Follows k ((starts k, true) ∷ xs) (some s) b
starts_if_stopped k stopped h f = starts_stopped f
starts_if_stopped k running h f = absurd (ground arith)
starts_if_stopped k ready h f = absurd (ground arith)
starts_if_stopped k SandboxState.creating h f = absurd (ground arith)
starts_if_stopped k SandboxState.error h f = absurd (ground arith)
starts_if_stopped k SandboxState.destroyed h f = absurd (ground arith)
starts_if_stopped k SandboxState.pending h f = absurd (ground arith)
starts_if_stopped k SandboxState.destroying h f = absurd (ground arith)
starts_if_stopped k SandboxState.paused h f = absurd (ground arith)

module _ {S M N W : Type 0} (c : Controller S M N W) (laws : StoreLaws c.store name_of) where
  -- A later run, put after one command.
  After :
      String
      → Command
      → Bool
      → List (Command × Bool)
      → System S M N W
      → Option SandboxState
      → Type 0
  After k x t xs σ b =
      Follows k xs (state_of c k (perform c x σ).1) b → Follows k ((x, t) ∷ xs) (state_of c k σ) b

  other_stays :
      (k : String) (x : Command) (t : Bool) (xs : List (Command × Bool)) (σ : System S M N W)
      (b : Option SandboxState)
      → str_eq (target x) k ≡ false
      → state_of c k (perform c x σ).1 ≡ state_of c k σ
      → After k x t xs σ b
  unfolding After
  other_stays k x t xs σ b n e f = other x t n (subst (λ a. Follows k xs a b) e f)

  succeeds-Follows :
      (k : String) (x : Command) (xs : List (Command × Bool)) (σ : System S M N W)
      (b : Option SandboxState)
      → IsKeyed c σ
      → (perform c x σ).0 ≡ ok tt
      → After k x true xs σ b
  unfolding After perform
  succeeds-Follows k (stops name) xs σ b keyed h =
      let (sb, t, e, a, put) = stop_succeeds c laws name σ keyed h in
      elim (Bool-cases (str_eq name k)) [
        | inr other' ↦ other_stays k (stops name) true xs σ b other' (rw (put k, other') refl)
        | inl same ↦
            let n : name ≡ k = (eq_iff name k).0 same in
            λ f.
              let now : state_of c k (stop c name σ).1 ≡ some stopped = rw (put k, same) refl in
              let was : state_of c k σ ≡ some sb.status.state = rw (← n, e) refl in
              let g = stops_active k sb.status.state a (subst (λ a. Follows k xs a b) now f) in
              subst (λ m. Follows k ((stops m, true) ∷ xs) (state_of c k σ) b) (sym n)
                (subst (λ a. Follows k ((stops k, true) ∷ xs) a b) (sym was) g)
      ]
  succeeds-Follows k (starts name) xs σ b keyed h =
      let (sb, t, e, a, put) = start_succeeds c laws name σ keyed h in
      elim (Bool-cases (str_eq name k)) [
        | inr other' ↦ other_stays k (starts name) true xs σ b other' (rw (put k, other') refl)
        | inl same ↦
            let n : name ≡ k = (eq_iff name k).0 same in
            λ f.
              let now : state_of c k (start c name σ).1 ≡ some running = rw (put k, same) refl in
              let was : state_of c k σ ≡ some sb.status.state = rw (← n, e) refl in
              let g = starts_if_stopped k sb.status.state a (subst (λ a. Follows k xs a b) now f) in
              subst (λ m. Follows k ((starts m, true) ∷ xs) (state_of c k σ) b) (sym n)
                (subst (λ a. Follows k ((starts k, true) ∷ xs) a b) (sym was) g)
      ]
  succeeds-Follows k (destroys name) xs σ b keyed h =
      let (gone, others) = destroy_succeeds c laws name σ h in
      elim (Bool-cases (str_eq name k)) [
        | inr other' ↦ other_stays k (destroys name) true xs σ b other' (ap shown (others k other'))
        | inl same ↦
            let n : name ≡ k = (eq_iff name k).0 same in
            λ f.
              let now : state_of c k (perform c (destroys name) σ).1 ≡ none =
                rw (← n, gone.1) refl in
              let g = destroys_any (subst (λ a. Follows k xs a b) now f) in
              subst (λ m. Follows k ((destroys m, true) ∷ xs) (state_of c k σ) b) (sym n) g
      ]

  -- The commands, each with whether it succeeded.
  abbrev pub outcomes : List Command → System S M N W → List (Command × Bool)
  outcomes [] σ = []
  outcomes (x ∷ xs) σ = (x, is_ok (perform c x σ).0) ∷ outcomes xs (perform c x σ).1

  -- Over a store that keeps the store laws and whose records stand under their own names, any
  -- sequence of Stop, Start and Destroy calls takes the state of each sandbox where a machine on
  -- states alone takes it by the same calls with the same outcomes in turn: a call on another
  -- sandbox, or one that fails, leaves the state, a Stop that succeeds takes running or ready to
  -- stopped, a Start stopped to running, and a Destroy takes the record away.
  pub run-Follows :
      (xs : List Command) (σ : System S M N W) (k : String)
      → IsKeyed c σ
      → Follows k (outcomes xs σ) (state_of c k σ) (state_of c k (run c xs σ))
  unfolding run After
  run-Follows [] σ k keyed = done (state_of c k σ)
  run-Follows (x ∷ xs) σ k keyed =
      let later = run-Follows xs (perform c x σ).1 k (perform_refines c laws x σ keyed).1 in
      let end' = state_of c k (run c xs (perform c x σ).1) in
      let rest = outcomes xs (perform c x σ).1 in
      elim (Result-cases (perform c x σ).0) [
        | inl (u, h) ↦
            subst (λ t. Follows k ((x, t) ∷ rest) (state_of c k σ) end') (sym (ap is_ok h))
              (succeeds-Follows k x rest σ end' keyed h later)
        | inr (e, h) ↦
            subst (λ t. Follows k ((x, t) ∷ rest) (state_of c k σ) end') (sym (ap is_ok h))
              (fails x (
                subst (λ a. Follows k rest a end') (ap shown (perform_fails c laws x σ e h k))
                  later))
      ]
