-- ===== src/State.antt =====
-- internal/state: what the stores promise, and the in-memory stores (store.go, matrix_store.go).
pub mod Memory
pub mod File
pub mod Stores
use sandboxmatrix.Base.{◌+◌, length, keep, String, ◌≡◌, Bool, List, str_eq, if◌then◌else◌}
use sandboxmatrix.Base.Action.{Action, Result, Error, ok, err}

-- The interfaces Store and MatrixStore, over the state S of an implementation and the stored type A.
pub record Store (S A : Type 0) : Type 0 where
  pub get : String → S → Result A
  pub list : S → Result (List A)
  pub save : A → Action S (Unit {0})
  pub delete : String → Action S (Unit {0})

-- What a client relies on: a save or delete that succeeds takes effect at its key alone, and one that
-- fails changes nothing that can be read. `name` is the key of a stored value.
pub record StoreLaws {S A : Type 0} (st : Store S A) (name : A → String) : Type 0 where
  pub get-save :
      (a : A) (s : S) (k : String)
      → (st.save a s).0 ≡ ok tt
      → st.get k (st.save a s).1 ≡ (if str_eq (name a) k then ok a else st.get k s)
  pub save_fails :
      (a : A) (s : S) (k : String) (e : Error)
      → (st.save a s).0 ≡ err e
      → st.get k (st.save a s).1 ≡ st.get k s
  pub delete_self :
      (n : String) (s : S)
      → (st.delete n s).0 ≡ ok tt
      → (e : Error) × (st.get n (st.delete n s).1 ≡ err e)
  pub delete_other :
      (n : String) (s : S) (k : String)
      → str_eq n k ≡ Bool.false
      → st.get k (st.delete n s).1 ≡ st.get k s
  pub delete_fails :
      (n : String) (s : S) (k : String) (e : Error)
      → (st.delete n s).0 ≡ err e
      → st.get k (st.delete n s).1 ≡ st.get k s

-- What List promises of a new value: it is one more of the values, in an order that is left open.
pub record ListLaws {S A : Type 0} (st : Store S A) (name : A → String) : Type 0 where
  pub list-save_new :
      (a : A) (s : S) (xs : List A) (e : Error)
      → st.list s ≡ ok xs
      → st.get (name a) s ≡ err e
      → (st.save a s).0 ≡ ok tt
      → (ys : List A) × (st.list (st.save a s).1 ≡ ok ys)
        × ((p : A → Bool) → length (keep p ys) ≡ length (keep p xs) + (if p a then 1 else 0))
