-- ===== src/Raft/Election/Won.antt =====
-- When a candidate of ohmyraft/OhMyRaft.H becomes the leader, and what it may do after that.
use oh_my_db.Prelude.{
  ℕ, ◌+◌, ◌*◌, ◌<◌, ◌≡◌, refl, ◌↔◌, inl, inr, ℤ, true, false, ◌&&◌, contains, length, ◌<ℤ◌, ◌==ℤ◌,
  ltb_ℤ, ltb, lt→ltb, sym, ==ℤ_iff, minus_one, arith, Bool-cases,
}
use oh_my_db.Consensus.{candidate, leader, RequestVoteParams, RequestVoteRet}
use oh_my_db.Raft.{Replica}
use oh_my_db.Raft.Roles.{become_follower, become_leader}
use oh_my_db.Raft.Vote.{request_vote}
use oh_my_db.Raft.Vote.Grant.{AtLeastAsNew, request_vote-granted}
use oh_my_db.Raft.Election.{is_candidate, has_quorum, count_vote, handle_vote_reply}

-- The reply is a vote of the election that asked for it.
pub record VoteOf (saved : ℤ) (reply : RequestVoteRet) : Type 0 where
  pub term : reply.term ≡ saved
  pub granted : reply.vote_granted ≡ true

VoteOf-test :
    (saved : ℤ) (reply : RequestVoteRet)
    → (((reply.term ==ℤ saved) && reply.vote_granted) ≡ true) ↔ VoteOf saved reply
VoteOf-test saved reply = (
  λ h. record { term = ground (arith, ==ℤ_iff reply.term saved); granted = ground arith },
  λ c. ground (arith, c.term, c.granted, ==ℤ_iff reply.term saved),
)

VoteOf-fresh :
    (saved : ℤ) (reply : RequestVoteRet) → VoteOf saved reply → ltb_ℤ saved reply.term ≡ false
VoteOf-fresh saved reply c = ground (arith, c.term)

is_candidate-true : (s : Replica) → s.role ≡ candidate → is_candidate s.role ≡ true
unfolding is_candidate
is_candidate-true s h = rw h refl

module _ (now : ℕ) (saved : ℤ) (reply : RequestVoteRet) (s : Replica) where
  handle_vote_reply-counted :
      s.role ≡ candidate
      → VoteOf saved reply
      → handle_vote_reply now saved reply s ≡ count_vote now s
  unfolding handle_vote_reply
  handle_vote_reply-counted c h =
      rw (is_candidate-true s c)
        (rw (VoteOf-fresh saved reply h, (VoteOf-test saved reply).1 h) refl)

  count_vote-leader :
      s.role ≡ candidate
      → ((count_vote now s).role ≡ leader) ↔ (length s.cluster_config < (s.votes_received + 1) * 2)
  unfolding count_vote become_leader has_quorum
  count_vote-leader c =
      elim (Bool-cases (ltb (length s.cluster_config) ((s.votes_received + 1) * 2))) [
        | inl h ↦ rw h (ground arith)
        | inr h ↦ rw h (rw c (ground arith))
      ]

  -- A candidate that reads a reply becomes the leader exactly if the reply is a vote of the election
  -- that asked for it and more than half of the configuration have voted for it, itself included.
  pub handle_vote_reply-elected :
      s.role ≡ candidate
      → ((handle_vote_reply now saved reply s).role ≡ leader)
        ↔ (VoteOf saved reply × (length s.cluster_config < (s.votes_received + 1) * 2))
  unfolding handle_vote_reply become_follower
  handle_vote_reply-elected c =
      rw (is_candidate-true s c) (elim (Bool-cases (ltb_ℤ saved reply.term)) [
        | inl late ↦ rw late (ground (arith, VoteOf-fresh saved reply))
        | inr fine ↦ rw fine (elim (Bool-cases ((reply.term ==ℤ saved) && reply.vote_granted)) [
          | inl h ↦ rw h (ground (arith, count_vote-leader c, VoteOf-test saved reply))
          | inr h ↦ rw (h, c) (ground (arith, VoteOf-test saved reply))
        ])
      ])

-- A candidate that has just won the election of its term grants a vote of that same term to any peer
-- with an up to date log: `becomeLeader` clears `VotedFor`, which held its own vote.
pub winner_votes_again :
    (now later : ℕ) (saved : ℤ) (reply : RequestVoteRet) (args : RequestVoteParams) (s : Replica)
    → s.role ≡ candidate
    → (handle_vote_reply now saved reply s).role ≡ leader
    → args.term ≡ s.current_term
    → contains args.candidate_id s.peers ≡ true
    → AtLeastAsNew args s.logs.items
    → (request_vote later args (handle_vote_reply now saved reply s)).1.vote_granted ≡ true
unfolding count_vote become_leader has_quorum
winner_votes_again now later saved reply args s c won same peer recent =
    let (counts, quorum) = (handle_vote_reply-elected now saved reply s c).0 won in
    rw (handle_vote_reply-counted now saved reply s c counts) (
      rw (lt→ltb (length s.cluster_config) ((s.votes_received + 1) * 2) quorum) (
        (request_vote-granted later args
            (become_leader now (record s { votes_received = s.votes_received + 1 }))).1
          (peer, inr (sym same, inl refl), recent)))

-- A vote of an election that is over still counts: a candidate of a later term adds it to the votes
-- of its own election.
pub late_vote_counts :
    (now : ℕ) (saved : ℤ) (reply : RequestVoteRet) (s : Replica)
    → s.role ≡ candidate
    → saved <ℤ s.current_term
    → VoteOf saved reply
    → (handle_vote_reply now saved reply s).votes_received ≡ s.votes_received + 1
unfolding count_vote become_leader
late_vote_counts now saved reply s c over counts =
    rw (handle_vote_reply-counted now saved reply s c counts)
      (elim (Bool-cases (has_quorum (record s { votes_received = s.votes_received + 1 }))) [
        | inl h ↦ rw h refl
        | inr h ↦ rw h refl
      ])

-- A reply of a term that is later than the request's, but earlier than the candidate's own, takes the
-- candidate back to that earlier term, with no vote in it.
pub late_reply_lowers_term :
    (now : ℕ) (saved : ℤ) (reply : RequestVoteRet) (s : Replica)
    → s.role ≡ candidate
    → saved <ℤ reply.term
    → reply.term <ℤ s.current_term
    → let t = handle_vote_reply now saved reply s in
      (t.current_term <ℤ s.current_term) × (t.voted_for ≡ minus_one)
unfolding handle_vote_reply become_follower
late_reply_lowers_term now saved reply s c late low =
    rw (is_candidate-true s c) (rw passed (low, refl))
  where
    passed : ltb_ℤ saved reply.term ≡ true
    passed = ground arith
