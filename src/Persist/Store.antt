-- ===== src/Persist/Store.antt =====
-- ohmyraft/PersistentStore.H: one file for each key. `file_base_name_` is fixed by `setup` and only
-- prefixes every file's name, so a file is named by its key here.
use oh_my_db.Prelude.{String, ℤ, Option, none, some, List, [], ◌∷◌, ◌≡◌, refl, arith, if◌then◌else◌}
use text.Mathlib.Text.{◌==◌}
use text.Mathlib.TextEquality.{eq_iff}

-- The files `<key>.persist`, each with the integer that its four bytes hold.
abbrev pub PersistentStore : Type 0
PersistentStore = List (String × ℤ)

-- The `rename` of the temporary file is what readers see: the file is replaced whole.
unfoldable pub store : String → ℤ → PersistentStore → PersistentStore
store key v [] = (key, v) ∷ []
store key v ((k, w) ∷ files) =
    let rest = store key v files in if k == key then (key, v) ∷ files else (k, w) ∷ rest

unfoldable pub load_int : String → PersistentStore → Option ℤ
load_int key [] = none
load_int key ((k, w) ∷ files) = if k == key then some w else load_int key files

unfoldable pub load : String → ℤ → PersistentStore → ℤ
load key default_val files = elim (load_int key files) [ none ↦ default_val | some v ↦ v ]

pub load_int-store :
    (k j : String) (v : ℤ) (files : PersistentStore)
    → load_int j (store k v files) ≡ (if k == j then some v else load_int j files)
unfolding store load_int
load_int-store k j v [] = refl
load_int-store k j v ((i, w) ∷ files) =
    ground (arith, eq_iff k j, eq_iff i k, eq_iff i j, load_int-store k j v files)
