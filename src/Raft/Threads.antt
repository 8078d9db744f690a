-- ===== src/Raft/Threads.antt =====
-- The rest of `RaftManager` of ohmyraft/OhMyRaft.H: submission, one round of each thread, start and
-- stop, `bootstrap` and `NetworkUpdate`.
pub mod Rounds
pub mod Executed
use oh_my_db.Prelude.{
  ℕ, ℤ, pos, minus_one, Map, Bool, true, false, ◌&&◌, List, [], ◌∷◌, ◌++◌, length, contains,
  find_or, insert, not, if◌then◌else◌,
}
use oh_my_db.Consensus.{
  OpKind, get, put, Operation, LogEntry, RaftRole, ServerInfo, no_server, Text, PeerNetworkConfig,
}
use oh_my_db.Signal.{signal, wait}
use oh_my_db.Promise.{PromiseStore}
use oh_my_db.Operation.{execute}
use oh_my_db.Database.{Database}
use oh_my_db.Persist.Store.{PersistentStore, load}
use oh_my_db.Persist.Log.{LogVector}
use oh_my_db.Raft.{Replica, Router, new_replica}
use oh_my_db.Raft.Roles.{persist}
use oh_my_db.Raft.Append.{strip}
use oh_my_db.Raft.Leader.{is_leader, begin_iter}

-- GET and PUT need a leader; the configuration changes are checked by their callers.
unfoldable pub needs_leader : OpKind → Bool
needs_leader (get _) = true
needs_leader (put _ _) = true
needs_leader _ = false

unfoldable pub submit : Operation → Replica → Replica × (Bool × ℤ)
unfolding needs_leader
submit op s =
    if needs_leader op.kind && not (is_leader s.role)
    then (s, (false, s.last_known_leader_id))
    else (
      record s {
        dispatch_out = s.dispatch_out ++ op ∷ [];
        more_inputs_ready = (signal s.more_inputs_ready).0;
      },
      (true, s.last_known_leader_id),
    )

-- One round of `raftImpl`: the swap of the two lists, the leader's iteration, and the `clear` after
-- the sleep. `role` is the role that it read before the iteration takes the mutex again; the state
-- may have another by then. The peers' threads run on their own.
unfoldable pub take_inputs : Replica → Replica
take_inputs s = record s { raft_in = s.dispatch_out; dispatch_out = s.raft_in }

unfoldable pub raft_round : RaftRole → Replica → Replica
unfolding take_inputs begin_iter
raft_round role s =
    let t = take_inputs s in
    let u = if is_leader role then begin_iter t else t in record u { raft_in = [] }

module _ (d : Database) where
  unfoldable pub execute_all : List Operation → d.Store × PromiseStore → d.Store × PromiseStore
  execute_all [] m = m
  execute_all (op ∷ rest) m = execute_all rest (execute d op m)

  -- One round of `executerImpl` after its `wait` returned.
  unfoldable pub executer_round : Replica × d.Store → Replica × d.Store
  unfolding execute_all
  executer_round (s, m) =
      let (m', p) = execute_all s.raft_out (m, s.promises) in
      (record s { raft_out = s.exec_in; exec_in = []; promises = p }, m')

unfoldable pub start : Replica → Replica
start s = record s { keep_running = true }

unfoldable pub stop : Replica → Replica
stop s = if s.keep_running then record s { keep_running = false } else s

-- What a replica finds in its store directory.
pub record Disk : Type 0 where
  pub log : List LogEntry
  pub files : PersistentStore

-- On a manager as constructed. Without `withBootstrap` the log's file is cut to nothing.
unfoldable pub bootstrap : ℤ → Bool → Disk → Replica
unfolding persist
bootstrap my_id with_bootstrap disk =
    let s = record (new_replica my_id) { p_store = disk.files } in
    if with_bootstrap
    then record s {
      logs = record { items = disk.log; persisted_items = length disk.log; file = disk.log };
      voted_for = load "VotedFor" minus_one disk.files;
      current_term = load "CurrentTerm" (pos 0) disk.files;
    }
    else persist s

-- What a crash leaves of a replica.
abbrev pub disk_of : Replica → Disk
disk_of s = record { log = s.logs.file; files = s.p_store }

unfoldable pub set_router : PeerNetworkConfig → Map Router → Map Router
set_router entry peers =
    if contains entry.peer_id peers
    then insert entry.peer_id
        (record {
          is_enabled = entry.is_enabled;
          is_delayed = entry.is_delayed;
          delay_ms = entry.delay_ms;
        })
        peers
    else peers

unfoldable pub network_update : List PeerNetworkConfig → Replica → Replica
unfolding set_router
network_update [] s = s
network_update (entry ∷ rest) s =
    network_update rest (record s { peers = set_router entry s.peers })
