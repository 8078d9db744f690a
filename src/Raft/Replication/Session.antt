-- ===== src/Raft/Replication/Session.antt =====
-- A leader and one follower of ohmyraft/OhMyRaft.H over a whole term: the rounds of `raftImpl`, the
-- requests of the threads for this peer, which may be lost, doubled and delivered in any order, and the
-- replies, for which the same holds.
pub mod Kept
pub mod Matched
pub mod Preserved
pub mod Delivery
pub mod Term
use oh_my_db.Prelude.{ℕ, ◌≡◌, ℤ, pos, Map, true, some, List, [], ◌∷◌, length, map}
use oh_my_db.Consensus.{
  add_server, remove_server, Operation, leader, AppendEntriesParams, AppendEntriesRet,
}
use oh_my_db.Raft.{Replica}
use oh_my_db.Raft.Append.{append_entries}
use oh_my_db.Raft.Leader.{append_args, next_of, is_leader, handle_append_reply}
use oh_my_db.Raft.Threads.{raft_round, submit}

-- A request, with the next index that its thread read.
pub record Request : Type 0 where
  pub next : ℕ
  pub args : AppendEntriesParams

-- A reply, with the next index and the number of entries of its request.
pub record Reply : Type 0 where
  pub next : ℕ
  pub count : ℕ
  pub ret : AppendEntriesRet

-- The two replicas, and every request and reply that was ever sent.
pub record Session : Type 0 where
  pub l : Replica
  pub f : Replica
  pub requests : List Request
  pub replies : List Reply

pub data Among {A : Type 0} (a : A) : List A → Type 0 where
  first : {rest : List A} → Among a (a ∷ rest)
  later : {b : A} {rest : List A} → Among a rest → Among a (b ∷ rest)

-- An operation that leaves the configuration as it is. The others let go of the mutex where they are applied,
-- so that the handler or round which applies them does not run as one step.
abbrev pub IsOrdinary : Operation → Type 0
IsOrdinary op = elim op.kind [ add_server _ ↦ ⊥ | remove_server _ ↦ ⊥ | _ ↦ Unit ]

abbrev pub AllOrdinary : List Operation → Type 0
AllOrdinary [] = Unit
AllOrdinary (op ∷ ops) = IsOrdinary op × AllOrdinary ops

-- What can happen in the term `saved` of the leader. The follower hears from no other server, and no
-- round of the leader loses its role on the way. The operations leave the configuration as it is.
pub data Step (peer saved : ℤ) : Session → Session → Type 0 where
  submitted :
      (s : Session) (op : Operation) → Step peer saved s (record s { l = (submit op s.l).0 })
  logged :
      (s : Session)
      → is_leader s.l.role ≡ true
      → s.l.current_term ≡ saved
      → AllOrdinary s.l.dispatch_out
      → Step peer saved s (record s { l = raft_round leader s.l })
  requested :
      (s : Session) (n : ℕ) (args : AppendEntriesParams)
      → next_of peer s.l ≡ pos n
      → append_args saved peer s.l ≡ some args
      → Step peer saved s (record s { requests = record { next = n; args = args } ∷ s.requests })
  delivered :
      (s : Session) (now : ℕ) (m : Request) (t : Replica) (r : AppendEntriesRet)
      → Among m s.requests
      → append_entries now m.args s.f ≡ some (t, r)
      → AllOrdinary (map (λ e. e.op) m.args.entries)
      → Step peer saved s (record s {
        f = t;
        replies = record { next = m.next; count = length m.args.entries; ret = r } ∷ s.replies;
      })
  answered :
      (s : Session) (now : ℕ) (h : Reply) (t : Replica)
      → Among h s.replies
      → handle_append_reply now peer saved (pos h.next) h.count h.ret s.l ≡ some t
      → Step peer saved s (record s { l = t })

pub data Steps (peer saved : ℤ) (s : Session) : Session → Type 0 where
  here : Steps peer saved s s
  followed_by : {t u : Session} → Steps peer saved s t → Step peer saved t u → Steps peer saved s u
