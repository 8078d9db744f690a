-- ===== src/Tests.antt =====
-- Sample replicas of a cluster of three, for the concrete runs in the modules below.
pub mod Entries
pub mod Terms
pub mod Votes
pub mod Members
pub mod Storage
pub mod Service
pub mod Bytes
pub mod Programs
pub mod Printed
pub mod Cluster
use oh_my_db.Prelude.{ℕ, ℤ, pos, minus_one, Map, none, some, true, List, [], ◌∷◌}
use oh_my_db.Consensus.{
  ServerInfo, Operation, put, get, LogEntry, leader, candidate, AppendLogEntry, AppendEntriesParams,
  RequestVoteParams,
}
use oh_my_db.Raft.{Replica, new_replica, fresh_router}

abbrev pub server : ℤ → ServerInfo
server n = record { id = n; ip = 49 ∷ []; raft_port = pos 10; db_port = pos 20; name = [] }

abbrev pub three_servers : Map ServerInfo
three_servers = (pos 0, server (pos 0)) ∷ (pos 1, server (pos 1)) ∷ (pos 2, server (pos 2)) ∷ []

-- Server 0, as a follower of term 0 with an empty log.
abbrev pub newcomer : Replica
newcomer = record (new_replica (pos 0)) {
  cluster_config = three_servers;
  peers = (pos 1, fresh_router) ∷ (pos 2, fresh_router) ∷ [];
}

abbrev pub put_op : Operation
put_op = record { kind = put (pos 3) (pos 4); promise_handle = some 0 }

abbrev pub get_op : Operation
get_op = record { kind = get (pos 3); promise_handle = none }

abbrev pub entry : ℤ → Operation → LogEntry
entry t op = record { term = t; op = op }

-- A leader of term 2 whose peer 1 holds both entries of its log.
abbrev pub busy_leader : Replica
busy_leader = record newcomer {
  current_term = pos 2;
  role = leader;
  logs = record {
    items = entry (pos 1) get_op ∷ entry (pos 2) put_op ∷ [];
    persisted_items = 0;
    file = [];
  };
  next_index = (pos 1, pos 1) ∷ (pos 2, pos 0) ∷ [];
  match_index = (pos 1, pos 1) ∷ (pos 2, minus_one) ∷ [];
}

-- A follower of term 1 with the leader's first entry and one of its own.
abbrev pub lagging : Replica
lagging = record newcomer {
  current_term = pos 1;
  logs = record {
    items = entry (pos 1) get_op ∷ entry (pos 1) get_op ∷ [];
    persisted_items = 0;
    file = [];
  };
}

-- What `busy_leader` sends to peer 1.
abbrev pub second_entry : AppendEntriesParams
second_entry = record {
  term = pos 2;
  leader_id = pos 0;
  prev_log_index = pos 0;
  prev_log_term = pos 1;
  entries =
      record { term = pos 2; index = pos 1; op = record put_op { promise_handle = none } } ∷ [];
  leader_commit = pos 1;
}

-- A candidate of term 4 that has its own vote.
abbrev pub running : Replica
running = record newcomer {
  current_term = pos 4;
  role = candidate;
  voted_for = pos 0;
  votes_received = 1;
}

abbrev pub vote_call : ℤ → ℤ → RequestVoteParams
vote_call who t = record {
  candidate_id = who;
  term = t;
  last_log_index = minus_one;
  last_log_term = minus_one;
}
