-- ===== src/Consensus.antt =====
-- ohmyraft/ConsensusUtils.H and `ServerInfo` of wowUtils/OhMyConfig.H: operations, log entries and
-- the parameters and replies of the RPCs.
pub mod Print
use oh_my_db.Prelude.{ℕ, ℤ, pos, Bool, Option, none, List}

-- The characters of a C string, without the terminating zero.
abbrev pub Text : Type 0
Text = List ℕ

pub record ServerInfo : Type 0 where
  pub id : ℤ
  pub ip : Text
  pub raft_port : ℤ
  pub db_port : ℤ
  pub name : Text

-- `OpType` with the alternative of `arg_t` that goes with it. The code builds the two together
-- everywhere; `unknown` is a kind off the wire that no enumerator names, with its first argument.
pub data OpKind : Type 0 where
  get : (key : ℤ) → OpKind
  put : (key val : ℤ) → OpKind
  add_server : (info : ServerInfo) → OpKind
  remove_server : (server_id : ℤ) → OpKind
  unknown : (kind arg : ℤ) → OpKind

-- The handle is the place of a promise in the `PromiseStore` of the process.
pub record Operation : Type 0 where
  pub kind : OpKind
  pub promise_handle : Option ℕ

unfoldable pub without_promise : Operation → Operation
without_promise op = record op { promise_handle = none }

pub record LogEntry : Type 0 where
  pub term : ℤ
  pub op : Operation

pub data RaftRole : Type 0 where
  follower candidate leader dead : RaftRole

pub record AppendLogEntry : Type 0 where
  pub term : ℤ
  pub index : ℤ
  pub op : Operation

pub record AppendEntriesParams : Type 0 where
  pub term : ℤ
  pub leader_id : ℤ
  pub prev_log_index : ℤ
  pub prev_log_term : ℤ
  pub entries : List AppendLogEntry
  pub leader_commit : ℤ

pub record AppendEntriesRet : Type 0 where
  pub term : ℤ
  pub success : Bool

pub record RequestVoteParams : Type 0 where
  pub candidate_id : ℤ
  pub term : ℤ
  pub last_log_index : ℤ
  pub last_log_term : ℤ

pub record RequestVoteRet : Type 0 where
  pub term : ℤ
  pub vote_granted : Bool

-- `raft::ErrorCode`; a number off the wire may have no enumerator.
pub data ErrorCode : Type 0 where
  ok not_leader prev_not_committed_timeout cur_not_committed_timeout : ErrorCode
  server_exists server_not_found other : ErrorCode
  unlisted : ℤ → ErrorCode

pub record AddServerParams : Type 0 where
  pub server_id : ℤ
  pub ip : Text
  pub raft_port : ℤ
  pub db_port : ℤ
  pub name : Text

pub record AddServerRet : Type 0 where
  pub error_code : ErrorCode
  pub leader_addr : Text

pub record RemoveServerParams : Type 0 where
  pub server_id : ℤ

pub record RemoveServerRet : Type 0 where
  pub error_code : ErrorCode
  pub leader_addr : Text

pub record PeerNetworkConfig : Type 0 where
  pub peer_id : ℤ
  pub is_enabled : Bool
  pub is_delayed : Bool
  pub delay_ms : ℤ

-- A value-initialised `ServerInfo`, which `operator[]` of the configuration yields for a missing id.
abbrev pub no_server : ServerInfo
no_server = record { id = pos 0; ip = List.[]; raft_port = pos 0; db_port = pos 0; name = List.[] }
