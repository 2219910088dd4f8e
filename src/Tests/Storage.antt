-- ===== src/Tests/Storage.antt =====
-- A disk that is a map from paths to contents, and a store on it.
use mathlib.Core.Path.{subst}
use sandboxmatrix.Base.{
  String, Bool, ◌≡◌, refl, true, false, Option, none, some, [], ◌∷◌, str_eq, eq_iff, if◌then◌else◌,
  arith, inl, inr, Option-cases,
}
use sandboxmatrix.Base.Dict.{
  Dict, lookup, insert, remove, lookup-insert, lookup-insert_self, lookup-remove,
}
use sandboxmatrix.Base.Action.{Result, message, ok, err, found}
use sandboxmatrix.State.{StoreLaws}
use sandboxmatrix.State.File.{Os, Codec, file_store}
use sandboxmatrix.State.File.Replacement.{OsLaws}
use sandboxmatrix.State.File.Laws.{CodecLaws, file_store-StoreLaws}
use sandboxmatrix.State.Stores.{state_wording}

abbrev has : {A : Type 0} → Option A → Bool
has none = false
has (some a) = true

abbrev moved : String → Option String → Dict String → Result (Unit {0}) × Dict String
moved path none d = (err (message "no such file"), d)
moved path (some content) d = (ok tt, insert path content d)

abbrev disk : Os (Dict String)
disk = record {
  mkdir_for = λ path d. (ok tt, d);
  exists = λ path d. has (lookup path d);
  write_file = λ path content d. (ok tt, insert path content d);
  read_file = λ path d. found (lookup path d) (message "no such file");
  create_temp = λ path d. (ok "tmp", insert "tmp" "" d);
  write = λ path content d. (ok tt, insert path content d);
  close = λ path d. (ok tt, d);
  remove_file = λ path d. (ok tt, remove path d);
  rename = λ from to d. moved to (lookup from d) d;
}

new_temp :
    (w : Dict String) (tmp : String)
    → ok "tmp" ≡ ok tmp
    → (str_eq tmp "state.json" ≡ false)
      × (disk.read_file tmp (disk.create_temp "state.json" w).1 ≡ ok "")
new_temp w tmp h =
    let same : "tmp" ≡ tmp = cc in
    subst (λ t. (str_eq t "state.json" ≡ false) × (disk.read_file t (insert "tmp" "" w) ≡ ok ""))
      same (refl, ground (arith, lookup-insert_self "tmp" "" w))

disk-OsLaws : OsLaws disk "state.json"
disk-OsLaws = record {
  temp_is_new = new_temp;
  temp_keeps =
      λ w. ground (arith, lookup-insert "tmp" "state.json" "" w, eq_iff "tmp" "state.json");
  write_keeps = λ w tmp content h. ground (arith, lookup-insert tmp "state.json" content w);
  write_fills = λ w tmp content h k. ground (arith, lookup-insert_self tmp content w);
  close_keeps = λ w tmp file. refl;
  remove_keeps = λ w tmp h. ground (arith, lookup-remove tmp "state.json" w);
  rename_moves = λ w tmp h. elim (Option-cases (lookup tmp w)) [
    | inl e ↦ absurd (ground arith)
    | inr (content, e) ↦ ground (arith, lookup-insert_self "state.json" content w)
  ];
  rename_fails = λ w tmp e h. elim (Option-cases (lookup tmp w)) [
    | inl f ↦ ground arith
    | inr (content, f) ↦ absurd (ground arith)
  ];
}

-- Maps with one entry at most, written as its key.
abbrev written : Dict (Unit {0}) → Result String
written [] = ok "{}"
written ((k, u) ∷ []) = if str_eq k "{}" then err (message "key") else ok k
written ((k, u) ∷ e ∷ d) = err (message "too long")

abbrev read_back : String → Dict (Unit {0})
read_back content = if str_eq content "{}" then [] else (content, tt) ∷ []

abbrev json : Codec (Unit {0})
json = record { marshal = written; unmarshal = λ content. ok (some (read_back content)) }

read_written :
    (d : Dict (Unit {0})) (content : String)
    → written d ≡ ok content
    → (d' : Dict (Unit {0})) × (json.unmarshal content ≡ ok (some d'))
      × ((k : String) → lookup k d' ≡ lookup k d)
unfolding lookup
read_written [] content h = ([], ground (arith, eq_iff content "{}"), λ k. refl)
read_written ((k, u) ∷ []) content h = ((k, u) ∷ [], ground (arith, eq_iff k "{}"), λ j. refl)
read_written ((k, u) ∷ e ∷ d) content h = absurd (ground arith)

json-CodecLaws : CodecLaws json
json-CodecLaws = record { unmarshal-marshal = read_written }

abbrev key : Unit {0} → String
key u = "x"

file_store_laws_example : StoreLaws (file_store disk state_wording "state.json" json key) key
file_store_laws_example =
    file_store-StoreLaws disk state_wording "state.json" disk-OsLaws json key json-CodecLaws
