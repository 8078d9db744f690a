-- ===== src/Raft/Membership.antt =====
-- `AddServer` and `RemoveServer` of ohmyraft/OhMyRaft.H, and the addresses of the leader that they
-- answer. The handlers let go of the mutex between their steps: `seen i` is the state that the
-- handler finds at its `i`-th look, whatever the other threads did before.
pub mod Waiting
pub mod Outcome
pub mod Lookup
use oh_my_db.Prelude.{
  ℕ, zero, suc, ◌+◌, ℤ, pos, negsuc, minus_one, Bool, true, false, ◌&&◌, ◌||◌, Option, none, some,
  [], ◌∷◌, ◌++◌, contains, find_or, insert, not, leb_ℤ, ltb_ℤ, ◌==ℤ◌, if◌then◌else◌, to_string,
}
use oh_my_db.Consensus.{
  ServerInfo, no_server, Text, Operation, add_server, remove_server, ErrorCode, ok, not_leader,
  prev_not_committed_timeout, cur_not_committed_timeout, server_exists, server_not_found, other,
  AddServerParams, AddServerRet, RemoveServerParams, RemoveServerRet,
}
use oh_my_db.Raft.{Replica}
use oh_my_db.Raft.Roles.{become_follower}
use oh_my_db.Raft.Leader.{is_leader}
use oh_my_db.Raft.Threads.{submit}

-- `ClusterConfig[LastKnownLeaderId]`: `operator[]` of a map puts an empty entry where it finds none.
unfoldable pub known_leader : Replica → Replica × ServerInfo
known_leader s = (
  if contains s.last_known_leader_id s.cluster_config
      then s
      else record s { cluster_config = insert s.last_known_leader_id no_server s.cluster_config },
  find_or s.last_known_leader_id no_server s.cluster_config,
)

unfoldable pub leader_db_addr : Replica → Replica × Text
unfolding known_leader
leader_db_addr s = let (t, info) = known_leader s in (t, info.ip ++ 58 ∷ to_string info.db_port)

unfoldable pub leader_raft_addr : Replica → Replica × Text
unfolding known_leader
leader_raft_addr s = let (t, info) = known_leader s in (t, info.ip ++ 58 ∷ to_string info.raft_port)

-- `RAFT_MEMBERSHIP_WAIT_ITERS`
abbrev pub wait_iters : ℕ
wait_iters = 100

-- What a look at the state tells a waiting handler.
pub data Look : Type 0 where
  go_on : Look  -- leave the loop
  look_again : Look
  give_up : ErrorCode → Look

-- A waiting loop of `n` looks at most, from look `i` on: the look at which it ended, with the code of
-- an early return.
unfoldable pub wait_loop :
    (Replica → Look) → ErrorCode → ℕ → ℕ → (ℕ → Replica) → ℕ × Option ErrorCode
wait_loop look timeout i zero seen = (i, some timeout)
wait_loop look timeout i (suc n) seen =
    let rest = wait_loop look timeout (suc i) n seen in
    elim (look (seen i)) [
      | go_on ↦ (i, none)
      | give_up code ↦ (i, some code)
      | look_again ↦ elim n [ zero ↦ (i, some timeout) | suc _ ↦ rest ]
    ]

-- The configuration change before this one is committed.
unfoldable pub prev_committed : Replica → Bool
prev_committed s =
    s.last_config_change_index ==ℤ minus_one || leb_ℤ s.last_config_change_index s.commit_index

-- A configuration change after index `prev` is committed.
unfoldable pub cur_committed : ℤ → Replica → Bool
cur_committed prev s =
    ltb_ℤ prev s.last_config_change_index && leb_ℤ s.last_config_change_index s.commit_index

unfoldable pub await_prev : Replica → Look
unfolding prev_committed
await_prev s = if prev_committed s then go_on else look_again

unfoldable pub await_added : ℤ → Replica → Look
unfolding cur_committed
await_added prev s =
    if is_leader s.role
    then (if cur_committed prev s then go_on else look_again)
    else give_up not_leader

unfoldable pub await_removed : ℤ → Replica → Look
unfolding cur_committed
await_removed prev s = if cur_committed prev s then go_on else look_again

-- What a handler answers, the operation that it has submitted if it came so far, and the state that
-- it leaves at its last look.
pub record Handled : Type 0 where
  pub error_code : ErrorCode
  pub leader_addr : Text
  pub submitted : Option Operation
  pub left : Replica

-- Every early return answers the address of the leader.
unfoldable pub refuse : ErrorCode → Option Operation → Replica → Handled
refuse code submitted s =
    let (t, addr) = leader_raft_addr s in
    record { error_code = code; leader_addr = addr; submitted = submitted; left = t }

-- The submission, at look `i`, and the wait for its commit. `prev` is the index of the change before.
unfoldable pub submit_and_wait :
    Operation → ℤ → (Replica → Look) → (Replica → Replica) → ℕ → (ℕ → Replica) → Handled
submit_and_wait op prev look finish i seen =
    if (submit op (seen i)).1.0
    then (let (j, early) = wait_loop look cur_not_committed_timeout (suc i) wait_iters seen in
        elim early [
          | some code ↦ refuse code (some op) (seen j)
          | none ↦ record {
            error_code = ok;
            leader_addr = [];
            submitted = some op;
            left = finish (seen j);
          }
        ])
    else refuse other none (seen i)

-- The wait for the change before, from look 1 on, and the rest.
unfoldable pub change_config :
    Operation → (ℤ → Replica → Look) → (Replica → Replica) → (ℕ → Replica) → Handled
change_config op look finish seen =
    let (i, early) = wait_loop await_prev prev_not_committed_timeout 1 wait_iters seen in
    let prev = (seen i).last_config_change_index in
    elim early [
      | some code ↦ refuse code none (seen i)
      | none ↦ submit_and_wait op prev (look prev) finish (suc i) seen
    ]

unfoldable pub server_info : AddServerParams → ServerInfo
server_info args = record {
  id = args.server_id;
  ip = args.ip;
  raft_port = args.raft_port;
  db_port = args.db_port;
  name = args.name;
}

abbrev pub add_op : AddServerParams → Operation
add_op args = record { kind = add_server (server_info args); promise_handle = none }

unfoldable pub handle_add_server : AddServerParams → (ℕ → Replica) → Handled
handle_add_server args seen =
    if not (is_leader (seen 0).role)
    then refuse not_leader none (seen 0)
    else if contains args.server_id (seen 0).cluster_config
    then refuse server_exists none (seen 0)
    else change_config (add_op args) await_added (λ s. s) seen

-- A server that removed itself steps back to the term -1.
unfoldable pub leave_cluster : ℕ → ℤ → Replica → Replica
leave_cluster now server_id s = if server_id ==ℤ s.id then become_follower now minus_one s else s

abbrev pub remove_op : RemoveServerParams → Operation
remove_op args = record { kind = remove_server args.server_id; promise_handle = none }

unfoldable pub handle_remove_server : ℕ → RemoveServerParams → (ℕ → Replica) → Handled
handle_remove_server now args seen =
    if not (is_leader (seen 0).role)
    then refuse not_leader none (seen 0)
    else if not (contains args.server_id (seen 0).cluster_config)
    then refuse server_not_found none (seen 0)
    else change_config (remove_op args) await_removed (leave_cluster now args.server_id) seen
