-- ===== src/Tests/Votes.antt =====
-- Concrete runs of the votes and elections of ohmyraft/OhMyRaft.H.
use oh_my_db.Prelude.{
  ◌+◌, ◌*◌, ◌<◌, ◌≡◌, refl, ◌↔◌, ℤ, pos, true, [], ◌∷◌, length, contains, pos_part, neg_part, arith,
  dec, ◌==ℤ◌,
}
use oh_my_db.Consensus.{leader, RequestVoteRet}
use oh_my_db.Raft.Vote.{up_to_date, last_log_term, may_vote, answer_vote, request_vote}
use oh_my_db.Raft.Vote.Grant.{AtLeastAsNew, FreeToVote, request_vote-granted}
use oh_my_db.Raft.Vote.Once.{serve_votes, one_vote_per_term}
use oh_my_db.Raft.Election.{handle_vote_reply}
use oh_my_db.Raft.Election.Won.{
  VoteOf, handle_vote_reply-elected, winner_votes_again, late_vote_counts,
}
use oh_my_db.Raft.Roles.{become_follower, persist}
use oh_my_db.Tests.{newcomer, running, vote_call}

request_vote-granted_example :
    ((request_vote 7 (vote_call (pos 1) (pos 3)) newcomer).1.vote_granted ≡ true) ↔ (
      (contains (pos 1) newcomer.peers ≡ true)
      × FreeToVote (vote_call (pos 1) (pos 3)) newcomer
      × AtLeastAsNew (vote_call (pos 1) (pos 3)) [])
request_vote-granted_example = request_vote-granted 7 (vote_call (pos 1) (pos 3)) newcomer

first_vote : (request_vote 7 (vote_call (pos 1) (pos 3)) newcomer).1.vote_granted ≡ true
unfolding request_vote answer_vote may_vote become_follower contains up_to_date last_log_term
    pos_part neg_part ◌==ℤ◌ dec
first_vote = refl

same_vote :
    (request_vote 9 (vote_call (pos 1) (pos 3)) (
      serve_votes
        ((8, vote_call (pos 2) (pos 3)) ∷ [])
        (request_vote 7 (vote_call (pos 1) (pos 3)) newcomer).0)).1.vote_granted
    ≡ true
unfolding serve_votes request_vote answer_vote may_vote become_follower persist contains up_to_date
    last_log_term pos_part neg_part ◌==ℤ◌ dec
same_vote = refl

one_vote_per_term_example : ◌≡◌ {A = ℤ} (pos 1) (pos 1)
one_vote_per_term_example =
    one_vote_per_term 7 9 (vote_call (pos 1) (pos 3)) (vote_call (pos 1) (pos 3))
      ((8, vote_call (pos 2) (pos 3)) ∷ []) newcomer (ground arith) refl first_vote same_vote

abbrev vote : RequestVoteRet
vote = record { term = pos 4; vote_granted = true }

its_vote : VoteOf (pos 4) vote
its_vote = record { term = refl; granted = refl }

handle_vote_reply-elected_example :
    ((handle_vote_reply 7 (pos 4) vote running).role ≡ leader)
    ↔ (VoteOf (pos 4) vote × (length running.cluster_config < (running.votes_received + 1) * 2))
handle_vote_reply-elected_example = handle_vote_reply-elected 7 (pos 4) vote running refl

winner_votes_again_example :
    (request_vote 9
      (vote_call (pos 2) (pos 4))
      (handle_vote_reply 7 (pos 4) vote running)).1.vote_granted
    ≡ true
unfolding contains up_to_date last_log_term pos_part neg_part ◌==ℤ◌ dec
winner_votes_again_example =
    winner_votes_again 7 9 (pos 4) vote (vote_call (pos 2) (pos 4)) running refl
      ((handle_vote_reply-elected 7 (pos 4) vote running refl).1 (its_vote, ground arith)) refl refl
      (ground arith)

abbrev late_vote : RequestVoteRet
late_vote = record { term = pos 2; vote_granted = true }

late_vote_counts_example : (handle_vote_reply 7 (pos 2) late_vote running).votes_received ≡ 2
unfolding pos_part neg_part
late_vote_counts_example =
    late_vote_counts 7 (pos 2) late_vote running refl (ground arith)
      (record { term = refl; granted = refl })
