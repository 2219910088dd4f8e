-- ===== src/State/File/Opening.antt =====
-- A file store that has just been opened.
use sandboxmatrix.Base.{
  String, ◌≡◌, refl, ap, none, some, inl, inr, Bool-cases, arith, if◌then◌else◌,
}
use sandboxmatrix.Base.Dict.{Dict, lookup}
use sandboxmatrix.Base.Action.{quoted, ok, err, found, Result-cases}
use sandboxmatrix.State.File.{Os, Codec, Wording, new_file_store, load, file_get}

module _ {W A : Type 0} (os : Os W) (t : Wording) (path : String) (json : Codec A)
    (name : A → String) where
  load_again :
      (w w' : W)
      → os.read_file path w' ≡ os.read_file path w
      → (k : String) → file_get os t path json name k w' ≡ file_get os t path json name k w
  unfolding file_get load
  load_again w w' h k = rw (file_get, load, h) refl

  load_empty :
      (empty : Dict A) (w : W)
      → json.unmarshal "{}" ≡ ok (some empty)
      → ((k : String) → lookup k empty ≡ none)
      → os.read_file path w ≡ ok "{}"
      → (k : String) → file_get os t path json name k w ≡ err (quoted t.missing k)
  unfolding file_get load
  load_empty empty w parse none_in h k =
      rw (file_get, load, h, parse) (ap (λ o. found o (quoted t.missing k)) (none_in k))

  -- If making the directory changes no file, a written file reads back, and the empty object
  -- parses as an empty map, then a file store that was opened without an error shows what its
  -- file held, or nothing if there was none.
  pub new_file_store_opens :
      (empty : Dict A) (w : W)
      → ((w : W) → os.read_file path (os.mkdir_for path w).1 ≡ os.read_file path w)
      → ((w : W) (content : String)
          → (os.write_file path content w).0 ≡ ok tt
          → os.read_file path (os.write_file path content w).1 ≡ ok content)
      → json.unmarshal "{}" ≡ ok (some empty)
      → ((k : String) → lookup k empty ≡ none)
      → (new_file_store os t path w).0 ≡ ok tt
      → (k : String)
      → file_get os t path json name k (new_file_store os t path w).1 ≡ (
          if os.exists path (os.mkdir_for path w).1
          then file_get os t path json name k w
          else err (quoted t.missing k))
  unfolding new_file_store file_get load
  new_file_store_opens empty w mkdir_keeps write_reads parse none_in h k =
      let w' = (os.mkdir_for path w).1 in
      let w'' = (os.write_file path "{}" w').1 in
      elim (Result-cases (os.mkdir_for path w).0) [
        | inr (x, e) ↦ absurd (ground arith)
        | inl (u, e) ↦ elim (Bool-cases (os.exists path w')) [
          | inl there ↦ rw (new_file_store, e, there) (load_again w w' (mkdir_keeps w) k)
          | inr new ↦ elim (Result-cases (os.write_file path "{}" w').0) [
            | inr (x, f) ↦ absurd (ground arith)
            | inl (u, f) ↦
                rw (new_file_store, e, new)
                  (load_empty empty w'' parse none_in (write_reads w' "{}" f) k)
          ]
        ]
      ]
