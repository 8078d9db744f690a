-- ===== src/Tools.antt =====
-- ohmytools/writestore.cpp: the tool that writes the files of a replica from a table of terms and
-- counts.
pub mod Read
pub mod Written
use oh_my_db.Prelude.{
  ℕ, zero, suc, ltb, ◌&&◌, Bool, true, ◌%◌, ℤ, pos, negsuc, Option, none, some, List, [], ◌∷◌,
  ◌>>=◌, ◌==◌, length, codes, stoi, if◌then◌else◌,
}
use oh_my_db.Consensus.{Text, OpKind, get, put, LogEntry}
use oh_my_db.Config.{Header, token, tokenize_csv}
use oh_my_db.Persist.Log.{LogVector, push_back, persist}
use oh_my_db.Persist.Store.{PersistentStore, store}
use oh_my_db.Raft.Append.{strip}
use oh_my_db.Raft.Threads.{Disk}

-- What `rand` gives for the kind and the two arguments of an operation.
pub record Draw : Type 0 where
  pub kind : ℕ
  pub first : ℕ
  pub second : ℕ

unfoldable pub random_op : Draw → OpKind
random_op d =
    if d.kind % 2 == 0
    then put (pos (d.first % 100)) (pos (d.second % 100))
    else get (pos (d.first % 100))

unfoldable pub random_entry : ℤ → Draw → LogEntry
unfolding random_op
random_entry term d = record {
  term = term;
  op = record { kind = random_op d; promise_handle = none };
}

-- `while ( count-- )`; `draw i` is for the entry at index `i`.
unfoldable pub push_entries : (ℕ → Draw) → ℤ → ℕ → LogVector LogEntry → LogVector LogEntry
unfolding random_entry push_back
push_entries draw term zero v = v
push_entries draw term (suc count) v =
    push_entries draw term count (push_back (random_entry term (draw (length v.items))) v)

-- A loop from a negative count overflows: none.
unfoldable pub push_row : (ℕ → Draw) → ℤ → ℤ → LogVector LogEntry → Option (LogVector LogEntry)
unfolding push_entries
push_row draw term (pos count) v = some (push_entries draw term count v)
push_row draw term (negsuc _) v = none

unfoldable pub push_rows :
    (ℕ → Draw) → Header → List (List Text) → LogVector LogEntry → Option (LogVector LogEntry)
unfolding push_row token
push_rows draw h [] v = some v
push_rows draw h (row ∷ rest) v = do
  term_token ← token h row (codes "term")
  term ← stoi term_token
  count_token ← token h row (codes "count")
  count ← stoi count_token
  w ← push_row draw term count v
  push_rows draw h rest w

-- A vector that is set up without `withBootstrap`: the file is cut to nothing.
abbrev pub empty_log : LogVector LogEntry
empty_log = record { items = []; persisted_items = 0; file = [] }

-- The loop that prints the table reads `row[v]` for every column `v` of the header, also of a row that
-- is too short for it.
unfoldable pub has_columns : Header → List Text → Bool
has_columns [] row = true
has_columns ((name, i) ∷ h) row = ltb i (length row) && has_columns h row

unfoldable pub can_print : Header → List (List Text) → Bool
unfolding has_columns
can_print h [] = true
can_print h (row ∷ rows) = has_columns h row && can_print h rows

-- `main` of writestore, on the table and what the output directory holds of the replica.
unfoldable pub write_store : (ℕ → Draw) → Text → ℤ → ℤ → PersistentStore → Option Disk
unfolding tokenize_csv can_print push_rows persist store
write_store draw input voted_for current_term files =
    let parsed = tokenize_csv input in
    if can_print parsed.header parsed.tokens_by_row
    then (do
      v ← push_rows draw parsed.header parsed.tokens_by_row empty_log
      some (record {
        log = (persist strip v).file;
        files = store "CurrentTerm" current_term (store "VotedFor" voted_for files);
      }))
    else none
