-- ===== src/State/Memory.antt =====
-- MemoryStore of internal/state/store.go and MemoryMatrixStore of internal/state/matrix_store.go: a
-- map under a lock. Both copy the struct on the way in and out; the copies are shallow, but nothing
-- modelled here writes through the maps, slices and pointers that they share.
pub mod Laws
use sandboxmatrix.Base.{String, none, some, List, map}
use sandboxmatrix.Base.Dict.{Dict, lookup, insert, remove}
use sandboxmatrix.Base.Action.{Action, Result, quoted, ok, err, found}
use sandboxmatrix.State.{Store}

module _ {A : Type 0} (missing : String) (name : A → String) where
  unfoldable pub memory : Store (Dict A) A
  memory = record {
    get = λ k d. found (lookup k d) (quoted missing k);
    list = λ d. ok (map (λ (e : String × A). e.1) d);
    save = λ a d. (ok tt, insert (name a) a d);
    delete = λ k d. elim (lookup k d) [
      | none ↦ (err (quoted missing k), d)
      | some a ↦ (ok tt, remove k d)
    ];
  }
