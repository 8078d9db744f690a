-- ===== src/Naive.antt =====
-- ohmyserver/server_naive.cpp: the server that answers text commands over leveldb, one at a time.
pub mod Session
use oh_my_db.Prelude.{
  Bool, true, false, Option, none, some, List, [], ◌∷◌, ◌++◌, codes, text_eq, is_space, skip_spaces,
  if◌then◌else◌,
}
use oh_my_db.Consensus.{Text}
use oh_my_db.Database.LevelDb.{LevelDb}

-- `iss >> word`: the next word, empty at the end of the text, and what is left.
unfoldable pub word : Text → Text × Text
word [] = ([], [])
word (c ∷ cs) = let (w, rest) = word cs in if is_space c then ([], c ∷ cs) else (c ∷ w, rest)

unfoldable pub next_word : Text → Text × Text
unfolding word
next_word s = word (skip_spaces s)

module _ (l : LevelDb) where
  -- The answer to a request, without its newline; none leaves the loop.
  unfoldable pub answer_command : Text → Text → Text → l.Disk → l.Disk × Option Text
  unfolding next_word
  answer_command command key rest db =
      if text_eq command (codes "put")
      then (let (value, _) = next_word rest in
          let (db', stored) = l.write key value db in
          (db', some (if stored then codes "OK" else codes "ERROR")))
      else if text_eq command (codes "get")
      then (
        db,
        some (elim (l.read key db) [ some value ↦ codes "OK " ++ value | none ↦ codes "ERROR" ]),
      )
      else if text_eq command (codes "quit")
      then (db, none)
      else (db, some (codes "ERROR"))

  unfoldable pub handle_request : Text → l.Disk → l.Disk × Option Text
  unfolding answer_command
  handle_request request db =
      let (command, after) = next_word request in
      let (key, rest) = next_word after in answer_command command key rest db

  -- A connection: what `recv` gives, in order, and what is sent back. An empty read is the end; the
  -- answer to `quit` is not sent.
  unfoldable pub serve_client : List Text → l.Disk → l.Disk × List Text
  unfolding handle_request
  serve_client [] db = (db, [])
  serve_client ([] ∷ requests) db = (db, [])
  serve_client ((c ∷ cs) ∷ requests) db =
      let (db', response) = handle_request (c ∷ cs) db in
      let (db'', later) = serve_client requests db' in
      elim response [ none ↦ (db', []) | some text ↦ (db'', (text ++ 10 ∷ []) ∷ later) ]
