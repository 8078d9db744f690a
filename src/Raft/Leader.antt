-- ===== src/Raft/Leader.antt =====
-- `RaftManager::runLeaderOneIter` of ohmyraft/OhMyRaft.H: its locked first part, the parameters that
-- a peer's thread sends, and what that thread does with the reply.
pub mod Commit
use oh_my_db.Prelude.{
  ℕ, zero, suc, ◌+◌, ◌*◌, ℤ, pos, negsuc, minus_one, Map, Bool, true, false, ◌&&◌, Option, none,
  some, List, [], ◌∷◌, length, get_elem?, drop, inc, dec, plus, contains, find_or, insert, ltb,
  ltb_ℤ, leb_ℤ, ◌==ℤ◌, not, ◌>>=◌, if◌then◌else◌,
}
use oh_my_db.Consensus.{
  Operation, without_promise, LogEntry, RaftRole, leader, AppendLogEntry, AppendEntriesParams,
  AppendEntriesRet,
}
use oh_my_db.Persist.Log.{push_back, persist as persist_log}
use oh_my_db.Raft.{Replica, Router}
use oh_my_db.Raft.Roles.{become_follower}
use oh_my_db.Raft.Append.{strip, apply_config, queue_committed}

-- The inputs enter the log under the current term, each configuration change at once.
unfoldable pub append_inputs : List Operation → Replica → Replica
append_inputs [] s = s
append_inputs (op ∷ rest) s = append_inputs rest (
    apply_config op.kind
      (record s { logs = push_back (record { term = s.current_term; op = op }) s.logs }))

unfoldable pub begin_iter : Replica → Replica
unfolding append_inputs
begin_iter s = let t = append_inputs s.raft_in s in record t { logs = persist_log strip t.logs }

-- `for ( size_t i = nextIndex; … )`, from the entries that are left at index `i`
unfoldable pub entries_from : ℕ → List LogEntry → List AppendLogEntry
unfolding without_promise
entries_from i [] = []
entries_from i (e ∷ es) =
    record { term = e.term; index = pos i; op = without_promise e.op } ∷ entries_from (suc i) es

-- `prevLogTerm`; `none` is a read past the end of the log.
unfoldable pub term_before : ℤ → List LogEntry → Option ℤ
term_before (negsuc _) logs = some minus_one
term_before (pos i) logs = elim (get_elem? logs i) [ none ↦ none | some e ↦ some e.term ]

-- A negative start is a huge `size_t`.
unfoldable pub entries_at : ℤ → List LogEntry → List AppendLogEntry
unfolding entries_from
entries_at (pos i) logs = entries_from i (drop i logs)
entries_at (negsuc _) logs = []

-- `NextIndex[id]`: an id without an entry reads 0.
abbrev pub next_of : ℤ → Replica → ℤ
next_of peer s = find_or peer (pos 0) s.next_index

unfoldable pub append_args : ℤ → ℤ → Replica → Option AppendEntriesParams
append_args saved_term peer s = do
  prev_term ← term_before (dec (next_of peer s)) s.logs.items
  some (record {
    term = saved_term;
    leader_id = s.id;
    prev_log_index = dec (next_of peer s);
    prev_log_term = prev_term;
    entries = entries_at (next_of peer s) s.logs.items;
    leader_commit = s.commit_index;
  })

-- How many peers are known to hold the log up to index `i`.
unfoldable pub peers_at : ℤ → Map ℤ → Map Router → ℕ
peers_at i matches [] = 0
peers_at i matches ((pid, r) ∷ ps) =
    (if leb_ℤ i (find_or pid (pos 0) matches) then 1 else 0) + peers_at i matches ps

-- The leader counts itself while it is in the configuration.
unfoldable pub holders : ℤ → Replica → ℕ
unfolding peers_at
holders i s = (if contains s.id s.cluster_config then 1 else 0) + peers_at i s.match_index s.peers

unfoldable pub majority_at : ℤ → Replica → Bool
majority_at i s = ltb (length s.cluster_config) (holders i s * 2)

-- The loop over the entries after the commit index: each that is of the current term and held by
-- a majority becomes the commit index.
unfoldable pub commit_loop : ℕ → List LogEntry → ℤ → Replica → ℤ
commit_loop i [] commit s = commit
commit_loop i (e ∷ es) commit s =
    commit_loop (suc i) es
      (if (e.term ==ℤ s.current_term) && majority_at (pos i) s then pos i else commit) s

unfoldable pub leader_commit : Replica → Option ℤ
leader_commit s = elim (inc s.commit_index) [
  | pos i ↦ some (commit_loop i (drop i s.logs.items) s.commit_index s)
  | negsuc _ ↦ none
]

unfoldable pub commit_and_queue : Replica → Option Replica
commit_and_queue s = do
  commit ← leader_commit s
  if commit ==ℤ s.commit_index then some s else queue_committed (record s { commit_index = commit })

-- `next` and `count` are `nextIndex` and `args.entries.size()` of the request.
unfoldable pub count_success : ℤ → ℤ → ℕ → Replica → Option Replica
count_success peer next count s = commit_and_queue (record s {
  next_index = insert peer (plus next count) s.next_index;
  match_index = insert peer (dec (plus next count)) s.match_index;
})

unfoldable pub is_leader : RaftRole → Bool
is_leader leader = true
is_leader _ = false

-- From the reply on; a failed RPC ends the thread before.
unfoldable pub handle_append_reply : ℕ → ℤ → ℤ → ℤ → ℕ → AppendEntriesRet → Replica → Option Replica
handle_append_reply now peer saved_term next count reply s =
    if ltb_ℤ saved_term reply.term
    then some (become_follower now reply.term s)
    else if is_leader s.role && (saved_term ==ℤ reply.term)
    then (if reply.success
        then count_success peer next count s
        else some (record s { next_index = insert peer (dec next) s.next_index }))
    else some s
