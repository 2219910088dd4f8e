-- ===== src/State/File/Replacement.antt =====
-- The replacement of a file by a temporary one, under what POSIX documents.
use sandboxmatrix.Base.{String, ◌≡◌, refl, ◌∙◌, false, inl, inr, str_eq, ◌⊎◌}
use sandboxmatrix.Base.Action.{Result, Error, wrap, ok, err, Result-cases}
use sandboxmatrix.State.File.{Os, Wording, rename_temp, close_temp, write_temp, replace_file}

-- What the code relies on: a temporary file is new and empty, a write, a close or a removal changes no
-- other file, and a rename replaces the file or leaves it.
pub record OsLaws {W : Type 0} (os : Os W) (path : String) : Type 0 where
  pub temp_is_new :
      (w : W) (tmp : String)
      → (os.create_temp path w).0 ≡ ok tmp
      → (str_eq tmp path ≡ false) × (os.read_file tmp (os.create_temp path w).1 ≡ ok "")
  pub temp_keeps : (w : W) → os.read_file path (os.create_temp path w).1 ≡ os.read_file path w
  pub write_keeps :
      (w : W) (tmp content : String)
      → str_eq tmp path ≡ false
      → os.read_file path (os.write tmp content w).1 ≡ os.read_file path w
  pub write_fills :
      (w : W) (tmp content : String)
      → os.read_file tmp w ≡ ok ""
      → (os.write tmp content w).0 ≡ ok tt
      → os.read_file tmp (os.write tmp content w).1 ≡ ok content
  pub close_keeps :
      (w : W) (tmp file : String) → os.read_file file (os.close tmp w).1 ≡ os.read_file file w
  pub remove_keeps :
      (w : W) (tmp : String)
      → str_eq tmp path ≡ false
      → os.read_file path (os.remove_file tmp w).1 ≡ os.read_file path w
  pub rename_moves :
      (w : W) (tmp : String)
      → (os.rename tmp path w).0 ≡ ok tt
      → os.read_file path (os.rename tmp path w).1 ≡ os.read_file tmp w
  pub rename_fails :
      (w : W) (tmp : String) (e : Error)
      → (os.rename tmp path w).0 ≡ err e
      → os.read_file path (os.rename tmp path w).1 ≡ os.read_file path w

module _ {W : Type 0} (os : Os W) (t : Wording) (path : String) (laws : OsLaws os path) where
  -- Either all of the new content is in place, or the file is as it was.
  abbrev pub Replaces : String → W → Result (Unit {0}) × W → Type 0
  Replaces content w done =
      ((done.0 ≡ ok tt) × (os.read_file path done.1 ≡ ok content))
      ⊎ ((e : Error) × (done.0 ≡ err e) × (os.read_file path done.1 ≡ os.read_file path w))

  Replaces-keep :
      (content : String) (w w' : W) (done : Result (Unit {0}) × W)
      → os.read_file path w' ≡ os.read_file path w
      → Replaces content w' done
      → Replaces content w done
  Replaces-keep content w w' done same h = elim h [
    | inl p ↦ inl p
    | inr (x, p, q) ↦ inr (x, p, q ∙ same)
  ]

  rename_temp-Replaces :
      (content tmp : String) (w : W)
      → str_eq tmp path ≡ false
      → os.read_file tmp w ≡ ok content
      → Replaces content w (rename_temp os t path tmp w)
  unfolding rename_temp
  rename_temp-Replaces content tmp w ne h = elim (Result-cases (os.rename tmp path w).0) [
    | inl (u, e) ↦ rw (rename_temp, e) (inl (refl, laws.rename_moves w tmp e ∙ h))
    | inr (x, e) ↦
        rw (rename_temp, e)
          (inr (
            wrap t.renaming x,
            refl,
            laws.remove_keeps (os.rename tmp path w).1 tmp ne ∙ laws.rename_fails w tmp x e,
          ))
  ]

  close_temp-Replaces :
      (content tmp : String) (w : W)
      → str_eq tmp path ≡ false
      → os.read_file tmp w ≡ ok content
      → Replaces content w (close_temp os t path tmp w)
  unfolding close_temp
  close_temp-Replaces content tmp w ne h =
      let w' = (os.close tmp w).1 in
      let same = laws.close_keeps w tmp path in
      let full = laws.close_keeps w tmp tmp ∙ h in
      elim (Result-cases (os.close tmp w).0) [
        | inl (u, e) ↦
            rw (close_temp, e)
              (Replaces-keep content w w' _ same (rename_temp-Replaces content tmp w' ne full))
        | inr (x, e) ↦
            rw (close_temp, e)
              (inr (wrap "closing temp file" x, refl, laws.remove_keeps w' tmp ne ∙ same))
      ]

  write_temp-Replaces :
      (content tmp : String) (w : W)
      → str_eq tmp path ≡ false
      → os.read_file tmp w ≡ ok ""
      → Replaces content w (write_temp os t path content tmp w)
  unfolding write_temp
  write_temp-Replaces content tmp w ne h =
      let w' = (os.write tmp content w).1 in
      let w'' = (os.close tmp w').1 in
      let same = laws.write_keeps w tmp content ne in
      elim (Result-cases (os.write tmp content w).0) [
        | inl (u, e) ↦
            let full = laws.write_fills w tmp content h e in
            rw (write_temp, e)
              (Replaces-keep content w w' _ same (close_temp-Replaces content tmp w' ne full))
        | inr (x, e) ↦
            let kept = laws.remove_keeps w'' tmp ne ∙ laws.close_keeps w' tmp path ∙ same in
            rw (write_temp, e) (inr (wrap "writing temp file" x, refl, kept))
      ]

  pub replace_file-Replaces :
      (content : String) (w : W) → Replaces content w (replace_file os t path content w)
  unfolding replace_file
  replace_file-Replaces content w =
      let w' = (os.create_temp path w).1 in
      let same = laws.temp_keeps w in
      elim (Result-cases (os.create_temp path w).0) [
        | inl (tmp, e) ↦
            let (ne, empty) = laws.temp_is_new w tmp e in
            rw (replace_file, e)
              (Replaces-keep content w w' _ same (write_temp-Replaces content tmp w' ne empty))
        | inr (x, e) ↦ rw (replace_file, e) (inr (wrap "creating temp file" x, refl, same))
      ]
