-- ===== src/Raft/Machine.antt =====
-- A replica of ohmyraft/OhMyRaft.H as a state machine: what can reach it, and the requests that its own
-- threads read from its state, one event at a time. An event runs as a whole, also where it applies a change
-- of the configuration and lets go of the mutex on the way.
pub mod Indices
pub mod Safe
pub mod Steady
use oh_my_db.Prelude.{true, ℕ, ℤ, Map, Option, some, List, [], ◌∷◌, ◌>>=◌}
use oh_my_db.Consensus.{
  RaftRole, ServerInfo, Operation, AppendEntriesParams, AppendEntriesRet, RequestVoteParams,
  RequestVoteRet, PeerNetworkConfig,
}
use oh_my_db.Raft.{Replica, Router}
use oh_my_db.Raft.Roles.{set_cluster_config, add_peer, remove_peer}
use oh_my_db.Raft.Vote.{request_vote}
use oh_my_db.Raft.Append.{append_entries}
use oh_my_db.Raft.Leader.{append_args, handle_append_reply}
use oh_my_db.Raft.Election.{handle_vote_reply, election_tick}
use oh_my_db.Raft.Membership.{known_leader, leave_cluster}
use oh_my_db.Raft.Threads.{bootstrap, disk_of, submit, raft_round, network_update}

-- Replies carry what their thread saved when it sent the request; requests that get no reply are
-- events that never come. Order, delay and repetition are free. The executer's rounds touch neither
-- the log nor the files and are left out.
pub data Event : Type 0 where
  vote_request : (now : ℕ) → RequestVoteParams → Event
  append_request : (now : ℕ) → AppendEntriesParams → Event
  vote_reply : (now : ℕ) (saved_term : ℤ) → RequestVoteRet → Event
  peer_request : (peer saved_term : ℤ) → Event
  append_reply : (now : ℕ) (peer saved_term next : ℤ) (count : ℕ) → AppendEntriesRet → Event
  timer : (now timeout : ℕ) → Event
  raft_period : RaftRole → Event
  submission : Operation → Event
  peer_added : ℤ → Router → Event
  peer_removed : ℤ → Event
  network : List PeerNetworkConfig → Event
  configured : Map ServerInfo → Event
  leader_looked_up : Event
  left_cluster : (now : ℕ) (server_id : ℤ) → Event

-- `none` stands for undefined behaviour.
unfoldable pub step : Event → Replica → Option Replica
step (vote_request now args) s = some (request_vote now args s).0
step (append_request now args) s = do (t, r) ← append_entries now args s; some t
step (vote_reply now saved_term reply) s = some (handle_vote_reply now saved_term reply s)
step (peer_request peer saved_term) s = do args ← append_args saved_term peer s; some s
step (append_reply now peer saved_term next count reply) s =
    handle_append_reply now peer saved_term next count reply s
step (timer now timeout) s = some (election_tick now timeout s)
step (raft_period role) s = some (raft_round role s)
step (submission op) s = some (submit op s).0
step (peer_added peer router) s = some (add_peer peer router s)
step (peer_removed peer) s = some (remove_peer peer s)
step (network entries) s = some (network_update entries s)
step (configured config) s = some (set_cluster_config config s)
step leader_looked_up s = some (known_leader s).0
step (left_cluster now server_id) s = some (leave_cluster now server_id s)

unfoldable pub run : List Event → Replica → Option Replica
run [] s = some s
run (e ∷ es) s = do t ← step e s; run es t

-- A replica that starts again from what a crash leaves of it.
unfoldable pub restart : Replica → Replica
restart s = bootstrap s.id true (disk_of s)

-- Lives of a replica, each ended by a crash, and the start after the last of them.
unfoldable pub live : List (List Event) → Replica → Option Replica
unfolding restart
live [] s = some s
live (events ∷ lives) s = do t ← run events s; live lives (restart t)
