-- ===== src/Raft/Append.antt =====
-- `RaftManager::AppendEntries` of ohmyraft/OhMyRaft.H. `none` stands for undefined behaviour, a
-- read of the log outside its bounds.
pub mod Entries
pub mod Overlay
pub mod Kept
pub mod Commit
pub mod Outcome
pub mod Followed
use oh_my_db.Prelude.{
  ℕ, zero, suc, ◌+◌, ◌-◌, ℤ, pos, negsuc, Bool, true, false, Option, none, some, List, [], ◌∷◌,
  ◌++◌, length, get_elem?, drop, inc, min_ℤ, last_index, ltb_ℤ, leb_ℤ, ◌==ℤ◌, ltb, ◌>>=◌,
  if◌then◌else◌,
}
use oh_my_db.Consensus.{
  OpKind, get, put, add_server, remove_server, unknown, Operation, without_promise, LogEntry,
  RaftRole, follower, dead, AppendLogEntry, AppendEntriesParams, AppendEntriesRet,
}
use oh_my_db.Signal.{signal}
use oh_my_db.Promise.{PromiseStore}
use oh_my_db.Operation.{abort}
use oh_my_db.Persist.Log.{push_back, resize, persist as persist_log}
use oh_my_db.Raft.{Replica}
use oh_my_db.Raft.Roles.{become_follower, apply_add_server, apply_remove_server}

-- The preprocessing of a log entry before it is written, from `bootstrap`.
unfoldable pub strip : LogEntry → LogEntry
unfolding without_promise
strip e = record e { op = without_promise e.op }

-- The consistency check on the entry before the new ones.
unfoldable pub prev_matches : ℤ → ℤ → List LogEntry → Option Bool
prev_matches (pos i) prev_log_term logs = elim (get_elem? logs i) [
  | none ↦ some false
  | some e ↦ some (prev_log_term ==ℤ e.term)
]
prev_matches (negsuc zero) prev_log_term logs = some true
prev_matches (negsuc (suc _)) prev_log_term logs = none

-- The loop that skips the entries which the log has already: how many of them, from the log's tail
-- after `prevLogIndex`.
unfoldable pub match_count : List LogEntry → List AppendLogEntry → ℕ
match_count [] es = 0
match_count (l ∷ ls) [] = 0
match_count (l ∷ ls) (e ∷ es) = if l.term ==ℤ e.term then suc (match_count ls es) else 0

-- `Logs[i].op.abort()` for the entries that are about to go
unfoldable pub abort_all : List LogEntry → PromiseStore → PromiseStore
abort_all [] p = p
abort_all (e ∷ es) p = abort_all es (abort e.op p).1

-- A configuration change takes effect when its entry enters the log.
unfoldable pub apply_config : OpKind → Replica → Replica
apply_config (get _) s = s
apply_config (put _ _) s = s
apply_config (add_server info) s = apply_add_server info s
apply_config (remove_server server_id) s = apply_remove_server server_id s
apply_config (unknown _ _) s = s

unfoldable pub push_entry : AppendLogEntry → Replica → Replica
unfolding apply_config
push_entry e s =
    apply_config e.op.kind
      (record s { logs = push_back (record { term = e.term; op = e.op }) s.logs })

unfoldable pub push_entries : List AppendLogEntry → Replica → Replica
push_entries [] s = s
push_entries (e ∷ es) s = push_entries es (push_entry e s)

-- The log from index `at` on gives way to `fresh`.
unfoldable pub replace_tail : ℕ → List AppendLogEntry → Replica → Replica
replace_tail at fresh s =
    let t = push_entries fresh (record s {
      promises = abort_all (drop at s.logs.items) s.promises;
      logs = resize at s.logs;
    }) in
    record t { logs = persist_log strip t.logs }

-- `logInsertIndex` is `at + matched` and `newEntriesIndex` is `matched` after the loop.
unfoldable pub accept_entries : ℕ → List AppendLogEntry → Replica → Replica
accept_entries at entries s =
    let matched = match_count (drop at s.logs.items) entries in
    if ltb matched (length entries) then replace_tail (at + matched) (drop matched entries) s else s

-- The operations of the entries `i`, …, `i + n - 1`.
unfoldable pub ops_range : ℕ → ℕ → List LogEntry → Option (List Operation)
ops_range i zero logs = some []
ops_range i (suc n) logs = do
  e ← get_elem? logs i
  rest ← ops_range (suc i) n logs
  some (e.op ∷ rest)

-- `for ( i = lastApplied + 1; i <= commitIndex; ++i )`
unfoldable pub committed_ops : ℤ → ℤ → List LogEntry → Option (List Operation)
committed_ops applied commit logs = elim (inc applied) [
  | pos i ↦ elim commit [ pos m ↦ ops_range i (m + 1 - i) logs | negsuc _ ↦ some [] ]
  | negsuc k ↦ if leb_ℤ (negsuc k) commit then none else some []
]

-- Queue what is committed for the executer; the commit index has moved already.
unfoldable pub queue_committed : Replica → Option Replica
queue_committed s = do
  ops ← committed_ops s.last_applied s.commit_index s.logs.items
  some (record s {
    raft_out = s.raft_out ++ ops;
    last_applied = s.commit_index;
    more_exec_jobs_ready = (signal s.more_exec_jobs_ready).0;
  })

unfoldable pub follow_commit : ℤ → Replica → Option Replica
unfolding queue_committed
follow_commit leader_commit s =
    if ltb_ℤ s.commit_index leader_commit
    then queue_committed
        (record s { commit_index = min_ℤ leader_commit (last_index (length s.logs.items)) })
    else some s

-- Up to the test of the term: the election timer, the leader's id, a term later than ours.
unfoldable pub hear_leader : ℕ → AppendEntriesParams → Replica → Replica
hear_leader now args s =
    let t = record s { last_known_leader_id = args.leader_id } in
    if ltb_ℤ t.current_term args.term then become_follower now args.term t else t

unfoldable pub touch_timer : ℕ → AppendEntriesParams → Replica → Replica
touch_timer now args s =
    if leb_ℤ s.current_term args.term then record s { election_reset_event = now } else s

unfoldable pub is_dead : RaftRole → Bool
is_dead dead = true
is_dead _ = false

unfoldable pub is_follower : RaftRole → Bool
is_follower follower = true
is_follower _ = false

-- A leader or a candidate that hears of a leader of its own term steps back.
unfoldable pub yield_to_leader : ℕ → AppendEntriesParams → Replica → Replica
yield_to_leader now args s = if is_follower s.role then s else become_follower now args.term s

abbrev reply : Bool → Replica → Replica × AppendEntriesRet
reply success s = (s, record { term = s.current_term; success = success })

-- The part under `prevLogIndex` and `prevLogTerm` found in order.
unfoldable pub take_entries : AppendEntriesParams → Replica → Option Replica
take_entries args s = elim (inc args.prev_log_index) [
  | pos at ↦ follow_commit args.leader_commit (accept_entries at args.entries s)
  | negsuc _ ↦ none
]

unfoldable pub same_term : AppendEntriesParams → Replica → Option (Replica × AppendEntriesRet)
same_term args s = do
  found ← prev_matches args.prev_log_index args.prev_log_term s.logs.items
  if found then (do t ← take_entries args s; some (reply true t)) else some (reply false s)

unfoldable pub append_entries :
    ℕ → AppendEntriesParams → Replica → Option (Replica × AppendEntriesRet)
append_entries now args s =
    let t = touch_timer now args s in
    if is_dead t.role
    then some (t, record { term = pos 0; success = false })
    else let u = hear_leader now args t in
      if args.term ==ℤ u.current_term
      then same_term args (yield_to_leader now args u)
      else some (reply false u)
