-- ===== src/Wire.antt =====
-- ohmyserver/RaftServiceImpl.C and ohmyraft/RaftRPCRouter.H: how a request of Raft travels from the
-- leader or candidate to a peer and its reply back. The bytes of an array of packed structs are read
-- back as the same array, so the field `entries` of a message is the list of the structs here. What
-- gRPC does with a message is the argument `call`: a response, or none for a status that is not OK.
pub mod Trip
pub mod Members
pub mod Database
use oh_my_db.Prelude.{
  ℕ, zero, suc, ℤ, pos, negsuc, Bool, true, false, Option, none, some, List, [], ◌∷◌, map, ◌>>=◌,
  ◌==ℤ◌, not, if◌then◌else◌,
}
use oh_my_db.Consensus.{
  ServerInfo, OpKind, get, put, add_server, remove_server, unknown, Operation, AppendLogEntry,
  AppendEntriesParams, AppendEntriesRet, RequestVoteParams, RequestVoteRet, ErrorCode, ok,
  not_leader, prev_not_committed_timeout, cur_not_committed_timeout, server_exists,
  server_not_found, other,
}
use oh_my_db.Raft.{Replica, Router}
use oh_my_db.Raft.Append.{append_entries}
use oh_my_db.Raft.Vote.{request_vote}

pub record TransportEntry : Type 0 where
  pub term : ℤ
  pub index : ℤ
  pub kind : ℤ
  pub arg1 : ℤ
  pub arg2 : ℤ
  pub server_info : ServerInfo

-- The enumerators of `OpType`
unfoldable pub kind_number : OpKind → ℤ
kind_number (get _) = pos 0
kind_number (put _ _) = pos 1
kind_number (add_server _) = pos 2
kind_number (remove_server _) = pos 3
kind_number (unknown kind _) = kind

unfoldable pub first_arg : OpKind → ℤ
first_arg (get key) = key
first_arg (put key _) = key
first_arg (add_server _) = pos 0
first_arg (remove_server server_id) = server_id
first_arg (unknown _ _) = pos 0

unfoldable pub second_arg : OpKind → ℤ
second_arg (put _ val) = val
second_arg _ = pos 0

-- `serverInfo` is not initialised for the other kinds: `junk` stands for what memory holds.
unfoldable pub info_arg : ServerInfo → OpKind → ServerInfo
info_arg junk (add_server info) = info
info_arg junk _ = junk

unfoldable pub pack : ServerInfo → AppendLogEntry → TransportEntry
unfolding kind_number first_arg second_arg info_arg
pack junk e = record {
  term = e.term;
  index = e.index;
  kind = kind_number e.op.kind;
  arg1 = first_arg e.op.kind;
  arg2 = second_arg e.op.kind;
  server_info = info_arg junk e.op.kind;
}

unfoldable pub unpack_kind : TransportEntry → OpKind
unpack_kind t =
    if t.kind ==ℤ pos 0
    then get t.arg1
    else if t.kind ==ℤ pos 1
    then put t.arg1 t.arg2
    else if t.kind ==ℤ pos 2
    then add_server t.server_info
    else if t.kind ==ℤ pos 3
    then remove_server t.arg1
    else unknown t.kind t.arg1

unfoldable pub unpack : TransportEntry → AppendLogEntry
unfolding unpack_kind
unpack t = record {
  term = t.term;
  index = t.index;
  op = record { kind = unpack_kind t; promise_handle = none };
}

-- `AppendEntriesRequest` of raft.proto
pub record AppendEntriesRequest : Type 0 where
  pub term : ℤ
  pub leader_id : ℤ
  pub prev_log_index : ℤ
  pub prev_log_term : ℤ
  pub entries : List TransportEntry
  pub leader_commit : ℤ

-- A response of raft.proto: its flag is an integer.
pub record Response : Type 0 where
  pub term : ℤ
  pub flag : ℤ

unfoldable pub append_request : ServerInfo → AppendEntriesParams → AppendEntriesRequest
unfolding pack
append_request junk args = record {
  term = args.term;
  leader_id = args.leader_id;
  prev_log_index = args.prev_log_index;
  prev_log_term = args.prev_log_term;
  entries = map (pack junk) args.entries;
  leader_commit = args.leader_commit;
}

unfoldable pub append_params : AppendEntriesRequest → AppendEntriesParams
unfolding unpack
append_params request = record {
  term = request.term;
  leader_id = request.leader_id;
  prev_log_index = request.prev_log_index;
  prev_log_term = request.prev_log_term;
  entries = map unpack request.entries;
  leader_commit = request.leader_commit;
}

unfoldable pub to_int : Bool → ℤ
to_int b = if b then pos 1 else pos 0

-- `static_cast<bool>`
unfoldable pub to_bool : ℤ → Bool
to_bool i = not (i ==ℤ pos 0)

-- The services: what a call does to the replica, and the response that goes back.
unfoldable pub serve_append : ℕ → AppendEntriesRequest → Replica → Option (Replica × Response)
unfolding append_params to_int
serve_append now request s = do
  (t, ret) ← append_entries now (append_params request) s
  some (t, record { term = ret.term; flag = to_int ret.success })

-- The fields of a vote request are those of its parameters.
unfoldable pub serve_vote : ℕ → RequestVoteParams → Replica → Replica × Response
unfolding to_int
serve_vote now request s =
    let (t, ret) = request_vote now request s in
    (t, record { term = ret.term; flag = to_int ret.vote_granted })

-- `RaftClient`, behind the switch of its `RaftRPCRouter`; a delay takes time only.
module _ (call : AppendEntriesRequest → Option Response) where
  unfoldable pub send_append : ServerInfo → AppendEntriesParams → Option AppendEntriesRet
  unfolding append_request to_bool
  send_append junk args = do
    response ← call (append_request junk args)
    some (record { term = response.term; success = to_bool response.flag })

  unfoldable pub route_append : Router → ServerInfo → AppendEntriesParams → Option AppendEntriesRet
  unfolding send_append
  route_append router junk args = if router.is_enabled then send_append junk args else none

module _ (call : RequestVoteParams → Option Response) where
  unfoldable pub send_vote : RequestVoteParams → Option RequestVoteRet
  unfolding to_bool
  send_vote args = do
    response ← call args
    some (record { term = response.term; vote_granted = to_bool response.flag })

  unfoldable pub route_vote : Router → RequestVoteParams → Option RequestVoteRet
  unfolding send_vote
  route_vote router args = if router.is_enabled then send_vote args else none
