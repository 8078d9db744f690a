-- ===== src/Raft/Machine/Safe.antt =====
-- Reads of the log, and the two indices, over the events of a replica of ohmyraft/OhMyRaft.H.
use oh_my_db.Prelude.{ℕ, ◌≤◌, ◌≡◌, ◌++◌, ℤ, pos, minus_one, some, List, [], ◌∷◌, length, dec, ◌≤ℤ◌}
use oh_my_db.Raft.{Replica}
use oh_my_db.Raft.Leader.{next_of}
use oh_my_db.Raft.Machine.{Event, append_request, peer_request, run}

-- An event that a sender can cause: the previous index of a request is -1 or more.
abbrev pub IsSound : Event → Type 0
IsSound (append_request now args) = minus_one ≤ℤ args.prev_log_index
IsSound _ = Unit

abbrev pub AllSound : List Event → Type 0
AllSound [] = Unit
AllSound (e ∷ es) = IsSound e × AllSound es

-- The entry before the first that the thread for `peer` is about to send lies past the end of the log.
abbrev pub IsPast : ℤ → Replica → Type 0
IsPast peer s = (i : ℕ) × (dec (next_of peer s) ≡ pos i) × (length s.logs.items ≤ i)

abbrev PastEnd : Event → Replica → Type 0
PastEnd e s = (peer : ℤ) × (saved : ℤ) × (e ≡ peer_request peer saved) × IsPast peer s

-- A thread for a peer that comes to build its request while `NextIndex` points past the log's end.
pub record BadRead (events : List Event) (s : Replica) : Type 0 where
  pub before : List Event
  pub after : List Event
  pub peer : ℤ
  pub saved : ℤ
  pub at : Replica
  pub split : events ≡ before ++ peer_request peer saved ∷ after
  pub reached : run before s ≡ some at
  pub past : IsPast peer at
