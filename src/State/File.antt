-- ===== src/State/File.antt =====
-- The stores that keep a JSON file: filestore.go, and the file stores of matrix_store.go, team_store.go
-- and session_store.go of internal/state, which differ in the stored type and in the words of their
-- errors. The operating system and encoding/json are parameters. Each method holds the store's lock.
pub mod Replacement
pub mod Laws
pub mod Opening
use sandboxmatrix.Base.{String, Bool, not, Option, none, some, List, [], ◌∷◌, map, if◌then◌else◌}
use sandboxmatrix.Base.Dict.{Dict, lookup, insert, remove}
use sandboxmatrix.Base.Action.{Action, Result, quoted, wrap, ok, err, wrapped, found}
use sandboxmatrix.State.{Store}

-- The package os, over the state W of the file system: whole files by their paths.
pub record Os (W : Type 0) : Type 0 where
  pub mkdir_for : String → Action W (Unit {0})
  pub exists : String → W → Bool
  pub write_file : String → String → Action W (Unit {0})
  pub read_file : String → W → Result String
  pub create_temp : String → Action W String
  pub write : String → String → Action W (Unit {0})
  pub close : String → Action W (Unit {0})
  pub remove_file : String → Action W (Unit {0})
  pub rename : String → String → Action W (Unit {0})

-- MarshalIndent and Unmarshal of a map; `null` is read as the nil map, none.
pub record Codec (A : Type 0) : Type 0 where
  pub marshal : Dict A → Result String
  pub unmarshal : String → Result (Option (Dict A))

-- The words of a store's errors.
pub record Wording : Type 0 where
  pub missing : String
  pub reading : String
  pub parsing : String
  pub marshaling : String
  pub renaming : String
  pub creating : String
  pub initializing : String

abbrev pub or_nil : {A : Type 0} → Option (Dict A) → Dict A
or_nil none = List.[]
or_nil (some d) = d

-- filepath.Join(home, ".sandboxmatrix", file), with os.UserHomeDir and Join given.
unfoldable pub default_path : (List String → String) → String → Result String → Result String
default_path join file (err e) = err (wrap "resolving home directory" e)
default_path join file (ok home) = ok (join (home ∷ ".sandboxmatrix" ∷ file ∷ []))

module _ {W : Type 0} (os : Os W) (t : Wording) (path : String) where
  -- The end of save: an error removes the temporary file, and its own error is dropped.
  unfoldable pub rename_temp : String → Action W (Unit {0})
  rename_temp tmp w =
      let renamed = os.rename tmp path w in
      elim renamed.0 [
        | ok u ↦ (ok tt, renamed.1)
        | err e ↦ (err (wrap t.renaming e), (os.remove_file tmp renamed.1).1)
      ]

  unfoldable pub close_temp : String → Action W (Unit {0})
  unfolding rename_temp
  close_temp tmp w =
      let closed = os.close tmp w in
      elim closed.0 [
        | ok u ↦ rename_temp tmp closed.1
        | err e ↦ (err (wrap "closing temp file" e), (os.remove_file tmp closed.1).1)
      ]

  unfoldable pub write_temp : String → String → Action W (Unit {0})
  unfolding close_temp
  write_temp content tmp w =
      let written = os.write tmp content w in
      elim written.0 [
        | ok u ↦ close_temp tmp written.1
        | err e ↦
            (err (wrap "writing temp file" e), (os.remove_file tmp (os.close tmp written.1).1).1)
      ]

  unfoldable pub replace_file : String → Action W (Unit {0})
  unfolding write_temp
  replace_file content w =
      let created = os.create_temp path w in
      elim created.0 [
        | ok tmp ↦ write_temp content tmp created.1
        | err e ↦ (err (wrap "creating temp file" e), created.1)
      ]

  -- The constructor with a path: the directory, and an empty object if there is no file.
  unfoldable pub new_file_store : Action W (Unit {0})
  new_file_store w =
      let made = os.mkdir_for path w in
      elim made.0 [
        | err e ↦ (err (wrap t.creating e), made.1)
        | ok u ↦ if os.exists path made.1 then (ok tt, made.1) else (
          wrapped t.initializing (os.write_file path "{}" made.1).0,
          (os.write_file path "{}" made.1).1,
        )
      ]

  module _ {A : Type 0} (json : Codec A) (name : A → String) where
    unfoldable pub load : W → Result (Dict A)
    load w = elim (os.read_file path w) [
      | err e ↦ err (wrap t.reading e)
      | ok content ↦ elim (json.unmarshal content) [
        | err e ↦ err (wrap t.parsing e)
        | ok d ↦ ok (or_nil d)
      ]
    ]

    unfoldable pub save_all : Dict A → Action W (Unit {0})
    unfolding replace_file
    save_all d w = elim (json.marshal d) [
      | err e ↦ (err (wrap t.marshaling e), w)
      | ok content ↦ replace_file content w
    ]

    unfoldable pub file_get : String → W → Result A
    unfolding load
    file_get k w = elim (load w) [ err e ↦ err e | ok d ↦ found (lookup k d) (quoted t.missing k) ]

    unfoldable pub file_list : W → Result (List A)
    unfolding load
    file_list w = elim (load w) [ err e ↦ err e | ok d ↦ ok (map (λ (e : String × A). e.1) d) ]

    unfoldable pub file_save : A → Action W (Unit {0})
    unfolding load save_all
    file_save a w = elim (load w) [ err e ↦ (err e, w) | ok d ↦ save_all (insert (name a) a d) w ]

    unfoldable pub file_delete : String → Action W (Unit {0})
    unfolding load save_all
    file_delete k w = elim (load w) [
      | err e ↦ (err e, w)
      | ok d ↦ elim (lookup k d) [
        | none ↦ (err (quoted t.missing k), w)
        | some a ↦ save_all (remove k d) w
      ]
    ]

    unfoldable pub file_store : Store W A
    file_store = record { get = file_get; list = file_list; save = file_save; delete = file_delete }
