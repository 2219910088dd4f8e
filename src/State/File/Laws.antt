-- ===== src/State/File/Laws.antt =====
-- The file stores against the laws of the store interface.
use sandboxmatrix.Base.{
  String, ◌≡◌, refl, sym, ap, ◌∙◌, false, some, inl, inr, str_eq, Option-cases, arith,
  if◌then◌else◌, ◌⊎◌,
}
use sandboxmatrix.Base.Dict.{
  Dict, lookup, insert, remove, lookup-insert, lookup-remove_self, lookup-remove_ne,
}
use sandboxmatrix.Base.Action.{Result, Error, quoted, wrap, ok, err, found, Result-cases}
use sandboxmatrix.State.{StoreLaws}
use sandboxmatrix.State.File.{
  Os, Codec, Wording, replace_file, load, save_all, file_get, file_save, file_delete, file_store,
}
use sandboxmatrix.State.File.Replacement.{OsLaws, replace_file-Replaces}

-- What is written reads back as a map with the same entries.
pub record CodecLaws {A : Type 0} (json : Codec A) : Type 0 where
  pub unmarshal-marshal :
      (d : Dict A) (content : String)
      → json.marshal d ≡ ok content
      → (d' : Dict A) × (json.unmarshal content ≡ ok (some d'))
        × ((k : String) → lookup k d' ≡ lookup k d)

module _ {W A : Type 0} (os : Os W) (t : Wording) (path : String) (laws : OsLaws os path)
    (json : Codec A) (name : A → String) (codec : CodecLaws json) where
  abbrev get : String → W → Result A
  get = file_get os t path json name

  get-load :
      (k : String) (w : W) (d : Dict A)
      → load os t path json name w ≡ ok d
      → get k w ≡ found (lookup k d) (quoted t.missing k)
  unfolding file_get
  get-load k w d h = rw (file_get, h) refl

  load_again :
      (w w' : W) → os.read_file path w' ≡ os.read_file path w → (k : String) → get k w' ≡ get k w
  unfolding file_get load
  load_again w w' h k = rw (file_get, load, h) refl

  -- The file has the map, or every name reads as before.
  abbrev Saves : Dict A → W → Result (Unit {0}) × W → Type 0
  Saves d w done =
      ((done.0 ≡ ok tt) × ((k : String) → get k done.1 ≡ found (lookup k d) (quoted t.missing k)))
      ⊎ ((e : Error) × (done.0 ≡ err e) × ((k : String) → get k done.1 ≡ get k w))

  save_all-Saves : (d : Dict A) (w : W) → Saves d w (save_all os t path json name d w)
  unfolding save_all load
  save_all-Saves d w = elim (Result-cases (json.marshal d)) [
    | inr (x, e) ↦ rw (save_all, e) (inr (wrap t.marshaling x, refl, λ k. refl))
    | inl (content, e) ↦
        let w' = replace_file os t path content w in
        let (d', p, q) = codec.unmarshal-marshal d content e in
        rw (save_all, e)
          (elim (replace_file-Replaces os t path laws content w) [
            | inl (r, s) ↦
                let l : load os t path json name w'.1 ≡ ok d' = rw (load, s, p) refl in
                inl (r, λ k. get-load k w'.1 d' l ∙ ap (λ o. found o (quoted t.missing k)) (q k))
            | inr (x, r, s) ↦ inr (x, r, load_again w w'.1 s)
          ])
  ]

  get_after_save :
      (a : A) (w : W) (k : String)
      → (file_save os t path json name a w).0 ≡ ok tt
      → get k (file_save os t path json name a w).1 ≡ (if str_eq (name a) k then ok a else get k w)
  unfolding file_save
  get_after_save a w k h = elim (Result-cases (load os t path json name w)) [
    | inr (x, e) ↦ absurd (ground arith)
    | inl (d, e) ↦ elim (save_all-Saves (insert (name a) a d) w) [
      | inl (r, s) ↦ ground (arith, s k, lookup-insert (name a) k a d, get-load k w d e)
      | inr (x, r, s) ↦ absurd (ground arith)
    ]
  ]

  save_fails_at :
      (a : A) (w : W) (k : String) (x : Error)
      → (file_save os t path json name a w).0 ≡ err x
      → get k (file_save os t path json name a w).1 ≡ get k w
  unfolding file_save
  save_fails_at a w k x h = elim (Result-cases (load os t path json name w)) [
    | inr (y, e) ↦ rw (file_save, e) refl
    | inl (d, e) ↦ elim (save_all-Saves (insert (name a) a d) w) [
      | inl (r, s) ↦ absurd (ground arith)
      | inr (y, r, s) ↦ rw (file_save, e) (s k)
    ]
  ]

  -- A delete returns an error and leaves every name as it was, or removes the name alone.
  abbrev Deletes : String → W → Result (Unit {0}) × W → Type 0
  Deletes n w done =
      ((e : Error) × (done.0 ≡ err e) × ((k : String) → get k done.1 ≡ get k w))
      ⊎ ((done.0 ≡ ok tt)
          × (get n done.1 ≡ err (quoted t.missing n))
          × ((k : String) → str_eq n k ≡ false → get k done.1 ≡ get k w))

  file_delete-Deletes : (n : String) (w : W) → Deletes n w (file_delete os t path json name n w)
  unfolding file_delete
  file_delete-Deletes n w = elim (Result-cases (load os t path json name w)) [
    | inr (x, e) ↦ rw (file_delete, e) (inl (x, refl, λ k. refl))
    | inl (d, e) ↦ elim (Option-cases (lookup n d)) [
      | inl gone ↦ rw (file_delete, e, gone) (inl (quoted t.missing n, refl, λ k. refl))
      | inr (a, some') ↦
          rw (file_delete, e, some')
            (elim (save_all-Saves (remove n d) w) [
              | inr (x, r, s) ↦ inl (x, r, s)
              | inl (r, s) ↦ inr (
                r,
                s n ∙ ap (λ o. found o (quoted t.missing n)) (lookup-remove_self n d),
                λ k ne.
                    s k
                    ∙ ap (λ o. found o (quoted t.missing k)) (lookup-remove_ne n k d ne)
                    ∙ sym (get-load k w d e),
              )
            ])
    ]
  ]

  -- If a temporary file is new, no write, close or removal changes another file, a rename
  -- replaces the file or leaves it, and a map that was written reads back with the same entries,
  -- then a file store satisfies the laws of a store, whichever step of a save fails.
  pub file_store-StoreLaws : StoreLaws (file_store os t path json name) name
  unfolding file_store
  file_store-StoreLaws = record {
    get-save = λ a w k h. get_after_save a w k h;
    save_fails = λ a w k x h. save_fails_at a w k x h;
    delete_self = λ n w h. elim (file_delete-Deletes n w) [
      | inl (x, r, s) ↦ absurd (ground arith)
      | inr (r, s, o) ↦ (quoted t.missing n, s)
    ];
    delete_other =
        λ n w k ne. elim (file_delete-Deletes n w) [ inl (x, r, s) ↦ s k | inr (r, s, o) ↦ o k ne ];
    delete_fails = λ n w k x h. elim (file_delete-Deletes n w) [
      | inl (y, r, s) ↦ s k
      | inr (r, s, o) ↦ absurd (ground arith)
    ];
  }
