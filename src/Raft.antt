-- ===== src/Raft.antt =====
-- ohmyraft/OhMyRaft.H: the state of `RaftManager`, with that of the threads around it.
pub mod Roles
pub mod Vote
pub mod Append
pub mod Leader
pub mod Replication
pub mod Election
pub mod Threads
pub mod Machine
pub mod Durable
pub mod Membership
use oh_my_db.Prelude.{ℕ, zero, ℤ, pos, minus_one, Map, Bool, true, false, List, []}
use oh_my_db.Consensus.{ServerInfo, LogEntry, Operation, RaftRole, follower}
use oh_my_db.Signal.{TimeTravelSignal, idle}
use oh_my_db.Promise.{PromiseStore, empty_store}
use oh_my_db.Persist.Store.{PersistentStore}
use oh_my_db.Persist.Log.{LogVector}

-- The switches of `RaftRPCRouter`; the channel behind them is not state of this program.
pub record Router : Type 0 where
  pub is_enabled : Bool
  pub is_delayed : Bool
  pub delay_ms : ℤ

abbrev pub fresh_router : Router
fresh_router = record { is_enabled = true; is_delayed = false; delay_ms = pos 0 }

-- `RaftState`, and the fields of `RaftManager`. Times are milliseconds of the system clock.
pub record Replica : Type 0 where
  pub id : ℤ
  pub current_term : ℤ
  pub voted_for : ℤ
  pub logs : LogVector LogEntry
  pub role : RaftRole
  pub election_reset_event : ℕ
  pub commit_index : ℤ
  pub last_applied : ℤ
  pub last_known_leader_id : ℤ
  pub cluster_config : Map ServerInfo
  pub last_config_change_index : ℤ
  pub next_index : Map ℤ
  pub match_index : Map ℤ
  pub votes_received : ℕ
  pub p_store : PersistentStore
  pub peers : Map Router
  pub dispatch_out : List Operation
  pub raft_in : List Operation
  pub raft_out : List Operation
  pub exec_in : List Operation
  pub more_inputs_ready : TimeTravelSignal
  pub more_exec_jobs_ready : TimeTravelSignal
  pub keep_running : Bool
  pub promises : PromiseStore

-- The constructor of `RaftManager`, with the id that `bootstrap` sets.
abbrev pub new_replica : ℤ → Replica
new_replica my_id = record {
  id = my_id;
  current_term = pos 0;
  voted_for = minus_one;
  logs = record { items = []; persisted_items = 0; file = [] };
  role = follower;
  election_reset_event = 0;
  commit_index = minus_one;
  last_applied = minus_one;
  last_known_leader_id = pos 0;
  cluster_config = [];
  last_config_change_index = minus_one;
  next_index = [];
  match_index = [];
  votes_received = 0;
  p_store = [];
  peers = [];
  dispatch_out = [];
  raft_in = [];
  raft_out = [];
  exec_in = [];
  more_inputs_ready = idle;
  more_exec_jobs_ready = idle;
  keep_running = false;
  promises = empty_store;
}
