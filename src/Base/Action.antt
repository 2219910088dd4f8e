-- ===== src/Base/Action.antt =====
-- Methods that change a state and may fail. What was written before a failure stays written, so the
-- state comes back beside the error too.
use Prim.Native.String.{String}
use mathlib.Core.Path.{◌≡◌, refl}
use mathlib.Core.Logic.{◌⊎◌, inl, inr}
use mathlib.Core.Bool.{Bool, true, false}
use mathlib.Core.Option.{Option, none, some}

-- A Go error: its format string with the quoted values, or `fmt.Errorf("...: %w", e)` as `wrap`.
pub data Error : Type 0 where
  message : String → Error
  quoted : String → String → Error
  with_state : String → String → String → Error
  wrap : String → Error → Error

pub data Result {ℓ} (A : Type ℓ) : Type ℓ where
  ok : A → Result A
  err : Error → Result A

abbrev pub Action {ℓ κ} : Type ℓ → Type κ → Type (ℓ ⊔ κ)
Action S A = S → Result A × S

pub Result-cases {ℓ} :
    {A : Type ℓ} (r : Result A) → ((a : A) × (r ≡ ok a)) ⊎ ((e : Error) × (r ≡ err e))
Result-cases (ok a) = inl (a, refl)
Result-cases (err e) = inr (e, refl)

abbrev pub is_ok {ℓ} : {A : Type ℓ} → Result A → Bool
is_ok (ok a) = true
is_ok (err e) = false

-- fmt.Errorf(text + ": %w", err)
abbrev pub wrapped {ℓ} : {A : Type ℓ} → String → Result A → Result A
wrapped text (ok a) = ok a
wrapped text (err e) = err (wrap text e)

abbrev pub found {ℓ} : {A : Type ℓ} → Option A → Error → Result A
found none e = err e
found (some a) e = ok a

-- if err != nil && firstErr == nil { firstErr = err }
abbrev pub first_error : Option Error → Result (Unit {0}) → Option Error
first_error none (err e) = some e
first_error none (ok u) = none
first_error (some e) r = some e

module _ {ℓ} {S A : Type ℓ} where
  abbrev pub pure : A → Action S A
  pure a s = (ok a, s)

  abbrev pub fail : Error → Action S A
  fail e s = (err e, s)

  abbrev pub lift : Result A → Action S A
  lift r s = (r, s)

  abbrev pub gets : (S → A) → Action S A
  gets f s = (ok (f s), s)

module _ {ℓ} {S A B : Type ℓ} where
  abbrev pub continue : Result A → (A → Action S B) → Action S B
  continue (ok a) f s = f a s
  continue (err e) f s = (err e, s)

  infixl 5 ◌>>=◌ ◌>>◌
  abbrev pub ◌>>=◌ : Action S A → (A → Action S B) → Action S B
  ◌>>=◌ m f s = continue (m s).0 f (m s).1

  abbrev pub ◌>>◌ : Action S A → Action S B → Action S B
  m >> n = m >>= λ _. n

module _ {ℓ} {S : Type ℓ} where
  -- if bad { return e }
  abbrev pub reject_if : Bool → Error → Action S (Unit {ℓ})
  reject_if true e s = (err e, s)
  reject_if false e s = (ok tt, s)

  -- _ = m: the error is dropped.
  abbrev pub ignore {κ} : {A : Type κ} → Action S A → Action S (Unit {ℓ})
  ignore m s = (ok tt, (m s).1)
