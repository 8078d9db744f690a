-- ===== src/Raft/Election.antt =====
-- `startElection` and `electionImpl` of ohmyraft/OhMyRaft.H.
pub mod Won
use oh_my_db.Prelude.{
  ℕ, suc, ◌+◌, ◌-◌, ◌*◌, ℤ, Bool, true, false, ◌&&◌, length, last_index, inc, ltb, ltb_ℤ, ◌==ℤ◌,
  if◌then◌else◌,
}
use oh_my_db.Consensus.{
  RaftRole, follower, candidate, leader, dead, RequestVoteParams, RequestVoteRet,
}
use oh_my_db.Raft.{Replica}
use oh_my_db.Raft.Roles.{become_follower, become_candidate, become_leader}
use oh_my_db.Raft.Vote.{last_log_term}

-- The threads for the peers are started afterwards; each sends `vote_args`.
unfoldable pub start_election : ℕ → Replica → Replica
unfolding become_candidate
start_election now s = record (become_candidate now (inc s.current_term) s) { votes_received = 1 }

unfoldable pub vote_args : ℤ → Replica → RequestVoteParams
vote_args saved_term s = record {
  candidate_id = s.id;
  term = saved_term;
  last_log_index = last_index (length s.logs.items);
  last_log_term = last_log_term s.logs.items;
}

unfoldable pub is_candidate : RaftRole → Bool
is_candidate candidate = true
is_candidate _ = false

-- `VotesReceived * 2 > ClusterConfig.size()`
unfoldable pub has_quorum : Replica → Bool
has_quorum s = ltb (length s.cluster_config) (s.votes_received * 2)

unfoldable pub count_vote : ℕ → Replica → Replica
unfolding has_quorum become_leader
count_vote now s =
    let t = record s { votes_received = s.votes_received + 1 } in
    if has_quorum t then become_leader now t else t

-- What a peer's thread does with the reply to its `RequestVote`.
unfoldable pub handle_vote_reply : ℕ → ℤ → RequestVoteRet → Replica → Replica
unfolding count_vote become_follower is_candidate
handle_vote_reply now saved_term reply s =
    if is_candidate s.role
    then (if ltb_ℤ saved_term reply.term
        then become_follower now reply.term s
        else if (reply.term ==ℤ saved_term) && reply.vote_granted
        then count_vote now s
        else s)
    else s

-- One round of `electionImpl` after its sleep of `timeout` milliseconds.
unfoldable pub election_round : ℕ → ℕ → RaftRole → Replica → Replica
unfolding start_election
election_round now timeout leader s = s
election_round now timeout candidate s = s
election_round now timeout follower s =
    if ltb timeout (now - s.election_reset_event) then start_election now s else s
election_round now timeout dead s = record s { keep_running = false }

unfoldable pub election_tick : ℕ → ℕ → Replica → Replica
unfolding election_round
election_tick now timeout s = election_round now timeout s.role s
