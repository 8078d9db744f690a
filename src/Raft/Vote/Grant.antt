-- ===== src/Raft/Vote/Grant.antt =====
-- When `RequestVote` of ohmyraft/OhMyRaft.H grants a vote, and what it leaves behind.
use oh_my_db.Prelude.{
  ℕ, ◌≡◌, refl, ◌↔◌, ◌⊎◌, inl, inr, minus_one, true, false, contains, List, length, last_index,
  ◌≤ℤ◌, ◌<ℤ◌, arith, ltb_ℤ, ==ℤ_iff, ==ℤ_refl, Bool-cases,
}
use oh_my_db.Consensus.{LogEntry, RequestVoteParams}
use oh_my_db.Raft.{Replica}
use oh_my_db.Raft.Roles.{become_follower}
use oh_my_db.Raft.Vote.{last_log_term, up_to_date, may_vote, answer_vote, request_vote}

-- The vote that a replica still has in a term that it hears of now: the one it gave in its own
-- term, none in a later one.
abbrev pub FreeToVote : RequestVoteParams → Replica → Type 0
FreeToVote args s =
    (s.current_term <ℤ args.term)
    ⊎ ((s.current_term ≡ args.term)
        × ((s.voted_for ≡ minus_one) ⊎ (s.voted_for ≡ args.candidate_id)))

pub answer-granted :
    (now : ℕ) (args : RequestVoteParams) (s : Replica)
    → (answer_vote now args s).1.vote_granted ≡ may_vote args s
unfolding answer_vote
answer-granted now args s = elim (Bool-cases (may_vote args s)) [ inl h ↦ rw h | inr h ↦ rw h ]

module _ (now : ℕ) (args : RequestVoteParams) (s : Replica) where
  pub request_vote-stranger :
      contains args.candidate_id s.peers ≡ false
      → request_vote now args s ≡ (s, record { term = s.current_term; vote_granted = false })
  unfolding request_vote
  request_vote-stranger h = rw h

  pub request_vote-newer :
      contains args.candidate_id s.peers ≡ true
      → ltb_ℤ s.current_term args.term ≡ true
      → request_vote now args s ≡ answer_vote now args (become_follower now args.term s)
  unfolding request_vote
  request_vote-newer h k = rw (h, k)

  pub request_vote-known :
      contains args.candidate_id s.peers ≡ true
      → ltb_ℤ s.current_term args.term ≡ false
      → request_vote now args s ≡ answer_vote now args s
  unfolding request_vote
  request_vote-known h k = rw (h, k)

  may_vote-newer : may_vote args (become_follower now args.term s) ≡ up_to_date args s.logs.items
  unfolding may_vote become_follower
  may_vote-newer = ground (arith, ==ℤ_refl args.term, ==ℤ_refl minus_one)

  may_vote-known :
      ltb_ℤ s.current_term args.term ≡ false
      → (may_vote args s ≡ true) ↔ (FreeToVote args s × (up_to_date args s.logs.items ≡ true))
  unfolding may_vote
  may_vote-known h = ground (
    arith,
    ==ℤ_iff args.term s.current_term,
    ==ℤ_iff s.voted_for minus_one,
    ==ℤ_iff s.voted_for args.candidate_id,
  )

  pub request_vote-allowed : ((request_vote now args s).1.vote_granted ≡ true) ↔ (
      (contains args.candidate_id s.peers ≡ true)
      × FreeToVote args s
      × (up_to_date args s.logs.items ≡ true))
  request_vote-allowed = elim (Bool-cases (contains args.candidate_id s.peers)) [
    | inr h ↦ rw (request_vote-stranger h) (ground arith)
    | inl h ↦ elim (Bool-cases (ltb_ℤ s.current_term args.term)) [
      | inl newer ↦ rw (request_vote-newer h newer) (
          rw (answer-granted now args (become_follower now args.term s))
            (rw may_vote-newer (ground arith)))
      | inr known ↦
          rw (request_vote-known h known)
            (rw (answer-granted now args s) (ground (arith, may_vote-known known)))
    ]
  ]

-- The candidate's log ends in a later term than ours, or in the same term and no earlier.
abbrev pub AtLeastAsNew : RequestVoteParams → List LogEntry → Type 0
AtLeastAsNew args logs =
    (last_log_term logs <ℤ args.last_log_term)
    ⊎ ((args.last_log_term ≡ last_log_term logs)
        × (last_index (length logs) ≤ℤ args.last_log_index))

pub up_to_date-AtLeastAsNew :
    (args : RequestVoteParams) (logs : List LogEntry)
    → (up_to_date args logs ≡ true) ↔ AtLeastAsNew args logs
unfolding up_to_date
up_to_date-AtLeastAsNew args logs = ground (arith, ==ℤ_iff args.last_log_term (last_log_term logs))

-- A vote is granted exactly if the candidate is a peer, its log is at least as new as ours, and its
-- term is later than ours, or is ours and no vote went to another candidate.
pub request_vote-granted :
    (now : ℕ) (args : RequestVoteParams) (s : Replica)
    → ((request_vote now args s).1.vote_granted ≡ true) ↔ (
        (contains args.candidate_id s.peers ≡ true)
        × FreeToVote args s
        × AtLeastAsNew args s.logs.items)
request_vote-granted now args s =
    let a = request_vote-allowed now args s in
    let n = up_to_date-AtLeastAsNew args s.logs.items in
    (
      λ h. let (peer, free, recent) = a.0 h in (peer, free, n.0 recent),
      λ h. let (peer, free, recent) = h in a.1 (peer, free, n.1 recent),
    )

-- What a granted vote leaves behind.
pub record Voted (args : RequestVoteParams) (s : Replica) : Type 0 where
  pub term : s.current_term ≡ args.term
  pub vote : s.voted_for ≡ args.candidate_id

answer-Voted :
    (now : ℕ) (args : RequestVoteParams) (s : Replica)
    → (answer_vote now args s).1.vote_granted ≡ true
    → Voted args (answer_vote now args s).0
unfolding answer_vote may_vote
answer-Voted now args s h = elim (Bool-cases (may_vote args s)) [
  | inl e ↦ rw e (record { term = ground (arith, ==ℤ_iff args.term s.current_term); vote = refl })
  | inr e ↦ ground arith
]

-- After a grant the replica's term is the candidate's and its vote is filed under the candidate.
pub request_vote-Voted :
    (now : ℕ) (args : RequestVoteParams) (s : Replica)
    → (request_vote now args s).1.vote_granted ≡ true
    → Voted args (request_vote now args s).0
request_vote-Voted now args s h = elim (Bool-cases (contains args.candidate_id s.peers)) [
  | inr e ↦ ground (arith, request_vote-stranger now args s e)
  | inl e ↦ elim (Bool-cases (ltb_ℤ s.current_term args.term)) [
    | inl newer ↦ rw (request_vote-newer now args s e newer) (
        answer-Voted now args (become_follower now args.term s)
          (rw (request_vote-newer now args s e newer) at h))
    | inr known ↦
        rw (request_vote-known now args s e known)
          (answer-Voted now args s (rw (request_vote-known now args s e known) at h))
  ]
]
