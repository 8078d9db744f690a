-- ===== src/Wire/Members.antt =====
-- ohmyserver/RaftServiceImpl.C: the RPCs that ping a server, change the configuration and update the
-- network, at the service and at the client. What gRPC does with a message is the argument `call`: a
-- response, or none for a status that is not OK.
pub mod Trip
use oh_my_db.Prelude.{
  ℕ, ℤ, pos, negsuc, minus_one, Option, none, some, List, ◌>>=◌, ◌==ℤ◌, length, strcpy,
  if◌then◌else◌,
}
use oh_my_db.Consensus.{
  Text, ErrorCode, ok, not_leader, prev_not_committed_timeout, cur_not_committed_timeout,
  server_exists, server_not_found, other, unlisted, AddServerParams, AddServerRet,
  RemoveServerParams, RemoveServerRet, PeerNetworkConfig,
}
use oh_my_db.Raft.{Replica}
use oh_my_db.Raft.Membership.{Handled, handle_add_server, handle_remove_server}
use oh_my_db.Raft.Threads.{network_update}

-- The enumerators of `ErrorCode`
unfoldable pub code_number : ErrorCode → ℤ
code_number ok = pos 0
code_number not_leader = pos 1
code_number prev_not_committed_timeout = pos 2
code_number cur_not_committed_timeout = pos 3
code_number server_exists = pos 4
code_number server_not_found = pos 5
code_number other = pos 6
code_number (unlisted n) = n

-- `static_cast<raft::ErrorCode>`
unfoldable pub number_code : ℤ → ErrorCode
number_code n =
    if n ==ℤ pos 0
    then ok
    else if n ==ℤ pos 1
    then not_leader
    else if n ==ℤ pos 2
    then prev_not_committed_timeout
    else if n ==ℤ pos 3
    then cur_not_committed_timeout
    else if n ==ℤ pos 4
    then server_exists
    else if n ==ℤ pos 5
    then server_not_found
    else if n ==ℤ pos 6
    then other
    else unlisted n

-- `AddServerResponse` and `RemoveServerResponse` of raft.proto have the same fields.
pub record ChangeResponse : Type 0 where
  pub error_code : ℤ
  pub leader_addr : Text

-- `AddServerRequest` of raft.proto
pub record AddServerRequest : Type 0 where
  pub server_id : ℤ
  pub ip : Text
  pub db_port : ℤ
  pub raft_port : ℤ
  pub name : Text

-- `NetworkUpdateRequest` of raft.proto; the bytes of an array of packed structs are read back as the
-- same array.
pub record NetworkUpdateRequest : Type 0 where
  pub num_entries : ℕ
  pub configs : List PeerNetworkConfig

-- The arrays of `AddServerParams`
abbrev pub ip_size : ℕ
ip_size = 20

abbrev pub name_size : ℕ
name_size = 20

unfoldable pub change_response : Handled → ChangeResponse
unfolding code_number
change_response h = record { error_code = code_number h.error_code; leader_addr = h.leader_addr }

-- The services. None is a write past the end of an array.
unfoldable pub add_server_params : AddServerRequest → Option AddServerParams
unfolding strcpy
add_server_params request = do
  ip ← strcpy ip_size request.ip
  name ← strcpy name_size request.name
  some (record {
    server_id = request.server_id;
    ip = ip;
    raft_port = request.raft_port;
    db_port = request.db_port;
    name = name;
  })

unfoldable pub serve_add_server :
    AddServerRequest → (ℕ → Replica) → Option (Replica × ChangeResponse)
unfolding add_server_params change_response
serve_add_server request seen = do
  args ← add_server_params request
  some ((handle_add_server args seen).left, change_response (handle_add_server args seen))

-- A removal request has the one field of its parameters.
unfoldable pub serve_remove_server :
    ℕ → RemoveServerParams → (ℕ → Replica) → Replica × ChangeResponse
unfolding change_response
serve_remove_server now request seen =
    let h = handle_remove_server now request seen in (h.left, change_response h)

-- The count in the request is not read.
unfoldable pub serve_network : NetworkUpdateRequest → Replica → Replica
serve_network request s = network_update request.configs s

-- `TestCall` sends back what it is sent.
unfoldable pub serve_ping : ℤ → ℤ
serve_ping cmd = cmd

-- The client.
unfoldable pub ping : (ℤ → Option ℤ) → ℤ → ℤ
ping call cmd = elim (call cmd) [ some ack ↦ ack | none ↦ minus_one ]

unfoldable pub add_server_request : AddServerParams → AddServerRequest
add_server_request args = record {
  server_id = args.server_id;
  ip = args.ip;
  db_port = args.db_port;
  raft_port = args.raft_port;
  name = args.name;
}

unfoldable pub send_add_server :
    (AddServerRequest → Option ChangeResponse) → AddServerParams → Option AddServerRet
unfolding add_server_request number_code
send_add_server call args = do
  response ← call (add_server_request args)
  some (record { error_code = number_code response.error_code; leader_addr = response.leader_addr })

unfoldable pub send_remove_server :
    (RemoveServerParams → Option ChangeResponse) → RemoveServerParams → Option RemoveServerRet
unfolding number_code
send_remove_server call args = do
  response ← call args
  some (record { error_code = number_code response.error_code; leader_addr = response.leader_addr })

-- The outcome of the call is ignored.
unfoldable pub network_request : List PeerNetworkConfig → NetworkUpdateRequest
network_request configs = record { num_entries = length configs; configs = configs }
