-- ===== src/State/Memory/Laws.antt =====
-- The in-memory store against the laws of the store interface.
use sandboxmatrix.Base.{
  ◌+◌, length, keep, map, Bool, [], ◌∷◌, none, if◌then◌else◌, refl, ap, ◌∙◌, String, ◌≡◌, false,
  inl, inr, str_eq, Option-cases, arith,
}
use sandboxmatrix.Base.Dict.{
  Dict, lookup, insert, lookup-insert, lookup-remove_self, lookup-remove_ne,
}
use sandboxmatrix.Base.Action.{quoted}
use sandboxmatrix.State.{StoreLaws, ListLaws}
use sandboxmatrix.State.Memory.{memory}

module _ {A : Type 0} (missing : String) (name : A → String) where
  get_after_delete :
      (n : String) (s : Dict A) (k : String)
      → str_eq n k ≡ false
      → (memory missing name).get k ((memory missing name).delete n s).1
        ≡ (memory missing name).get k s
  unfolding memory
  get_after_delete n s k ne = elim (Option-cases (lookup n s)) [
    | inl e ↦ rw (memory, e)
    | inr (a, e) ↦ rw (memory, e, lookup-remove_ne n k s ne)
  ]

  -- For every way to name the stored values, the in-memory store satisfies the laws of a store.
  pub memory-StoreLaws : StoreLaws (memory missing name) name
  unfolding memory
  memory-StoreLaws = record {
    get-save = λ a s k h. ground (arith, lookup-insert (name a) k a s);
    save_fails = λ a s k e h. cc;
    delete_self = λ n s h. (quoted missing n, ground (arith, lookup-remove_self n s));
    delete_other = λ n s k ne. get_after_delete n s k ne;
    delete_fails = λ n s k e h. ground arith;
  }

module _ {A : Type 0} where
  length-insert :
      (p : A → Bool) (k : String) (a : A) (d : Dict A)
      → lookup k d ≡ none
      → length (keep p (map (λ (e : String × A). e.1) (insert k a d)))
        ≡ length (keep p (map (λ (e : String × A). e.1) d)) + (if p a then 1 else 0)
  unfolding lookup insert
  length-insert p k a [] h = ground arith
  length-insert p k a ((j, b) ∷ d) h = ground (arith, length-insert p k a d)

  pub memory-ListLaws : (missing : String) (name : A → String) → ListLaws (memory missing name) name
  unfolding memory
  memory-ListLaws missing name = record {
    list-save_new = λ a s xs e h g r. elim (Option-cases (lookup (name a) s)) [
      | inr (b, f) ↦ absurd (ground arith)
      | inl f ↦ (
        _,
        refl,
        λ p.
            length-insert p (name a) a s f
            ∙ ap (λ l. length (keep p l) + (if p a then 1 else 0)) cc,
      )
    ];
  }
