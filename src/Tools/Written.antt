-- ===== src/Tools/Written.antt =====
-- A replica of ohmyraft/OhMyRaft.H that starts over the files of ohmytools/writestore.cpp.
use oh_my_db.Prelude.{
  ℕ, zero, suc, ◌≡◌, ℤ, pos, negsuc, Option, none, some, List, [], ◌∷◌, ◌++◌, map, ◌>>=◌, codes,
  stoi,
}
use oh_my_db.Consensus.{Text, LogEntry}
use oh_my_db.Config.{Header, token}
use oh_my_db.Persist.Log.{LogVector}
use oh_my_db.Persist.Log.Saved.{IsConsistent}
use oh_my_db.Raft.{Replica}
use oh_my_db.Raft.Append.{strip}

-- The terms that the rows of the table ask for, in order.
abbrev pub repeat : ℕ → ℤ → List ℤ
repeat zero term = []
repeat (suc n) term = term ∷ repeat n term

abbrev pub asked : Header → List (List Text) → Option (List ℤ)
asked h [] = some []
asked h (row ∷ rest) = do
  term_token ← token h row (codes "term")
  term ← stoi term_token
  count_token ← token h row (codes "count")
  count ← stoi count_token
  later ← asked h rest
  elim count [ pos n ↦ some (repeat n term ++ later) | negsuc _ ↦ none ]

abbrev pub terms : List LogEntry → List ℤ
terms = map (λ e. e.term)

-- The rows added what they ask for.
record Pushed (h : Header) (rows : List (List Text)) (v w : LogVector LogEntry) : Type 0 where
  new_terms : List ℤ
  as_asked : asked h rows ≡ some new_terms
  in_log : terms w.items ≡ terms v.items ++ new_terms
  consistent : IsConsistent strip w

record RowPushed (term count : ℤ) (v u : LogVector LogEntry) : Type 0 where
  n : ℕ
  counted : count ≡ pos n
  in_log : terms u.items ≡ terms v.items ++ repeat n term
  consistent : IsConsistent strip u

-- A replica over the files that the tool leaves of a log.
record Booted (v : LogVector LogEntry) (voted_for current_term : ℤ) (s : Replica) : Type 0 where
  in_log : terms s.logs.items ≡ terms v.items
  vote : s.voted_for ≡ voted_for
  term : s.current_term ≡ current_term
