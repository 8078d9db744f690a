-- ===== src/Tools/Read.antt =====
-- ohmytools/readstore.cpp: the tool that prints a file of a replica's store.
pub mod Told
use oh_my_db.Prelude.{
  ℕ, suc, ℤ, pos, Bool, Option, none, some, List, [], ◌∷◌, ◌++◌, true, if◌then◌else◌, codes,
  to_string,
}
use oh_my_db.Consensus.{Text, LogEntry}
use oh_my_db.Consensus.Print.{log_entry_str}
use oh_my_db.Persist.Vector.{Layout, setup}

-- The loop over the vector: a line for each entry.
unfoldable pub print_entries : ℕ → List LogEntry → Text
unfolding log_entry_str
print_entries cntr [] = []
print_entries cntr (e ∷ es) =
    91 ∷ (to_string (pos cntr) ++ 93 ∷ 9 ∷ (log_entry_str e ++ 10 ∷ print_entries (suc cntr) es))

-- A value that could not be read is an error in the log, and nothing is printed.
unfoldable pub print_value : Option ℤ → Text
print_value none = []
print_value (some v) = codes "Value: " ++ (to_string v ++ 10 ∷ [])

-- What is printed of a file, from its bytes as a vector, or from what `loadInt` reads of it.
unfoldable pub read_store : Layout LogEntry → Bool → List ℕ → Option ℤ → Text
unfolding print_entries print_value setup
read_store layout is_vec bytes value =
    if is_vec then print_entries 0 (setup layout true bytes).items else print_value value
