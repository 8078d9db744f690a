-- ===== src/Tests/Printed.antt =====
-- Concrete output of ohmytools/readstore.cpp, for entries of one byte, which is the handle of the promise.
use oh_my_db.Prelude.{
  ℕ, ◌≡◌, refl, pos, true, Option, none, some, List, [], ◌∷◌, ◌++◌, map, arith, codes, to_string,
  digits,
}
use oh_my_db.Consensus.{get, LogEntry}
use oh_my_db.Consensus.Print.{log_entry_str, operation_str, kind_str, bool_text, has_value}
use oh_my_db.Persist.Vector.{Layout, setup, whole_records}
use oh_my_db.Tools.Read.{read_store, print_entries}
use oh_my_db.Tools.Read.Told.{AllPrinted, shown, read_store-tells}

abbrev with_handle : List ℕ → LogEntry
with_handle [] = record { term = pos 7; op = record { kind = get (pos 5); promise_handle = none } }
with_handle (x ∷ xs) = record {
  term = pos 7;
  op = record { kind = get (pos 5); promise_handle = some x };
}

abbrev handle_of : Option ℕ → List ℕ
handle_of none = 0 ∷ []
handle_of (some x) = x ∷ []

abbrev one_byte : Layout LogEntry
one_byte = record { size = 1; write = λ e. handle_of e.op.promise_handle; read = with_handle }

printed_line :
    read_store one_byte true (3 ∷ []) none
    ≡ codes "[0]" ++ 9 ∷ (codes "LogEntry=[Term=7 Op=Operation[ GET(5) HasPromise=1 ]]" ++ 10 ∷ [])
unfolding read_store print_entries log_entry_str operation_str kind_str bool_text has_value setup
    whole_records to_string digits
printed_line = refl

clients : (x : ℕ) → AllPrinted (setup one_byte true (x ∷ [])).items
unfolding setup whole_records
clients x = ((omega arith, omega arith), tt)

same_output :
    read_store one_byte true (3 ∷ []) none ≡ read_store one_byte true (4 ∷ []) (some (pos 1))
unfolding read_store print_entries log_entry_str operation_str kind_str bool_text has_value setup
    whole_records to_string digits
same_output = refl

read_store-tells_example :
    map shown (setup one_byte true (3 ∷ [])).items ≡ map shown (setup one_byte true (4 ∷ [])).items
read_store-tells_example =
    read_store-tells one_byte (3 ∷ []) (4 ∷ []) none (some (pos 1)) (clients 3) (clients 4)
      same_output
