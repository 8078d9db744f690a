-- ===== src/Raft/Vote/Once.antt =====
-- Runs of `RequestVote` of ohmyraft/OhMyRaft.H.
use oh_my_db.Prelude.{
  ℕ, ◌≡◌, ◌≢◌, ◌⊎◌, inl, inr, ℤ, minus_one, true, List, [], ◌∷◌, contains, ◌<ℤ◌, arith, ltb_ℤ,
  ==ℤ_iff, Bool-cases,
}
use oh_my_db.Consensus.{RequestVoteParams}
use oh_my_db.Raft.{Replica}
use oh_my_db.Raft.Roles.{become_follower}
use oh_my_db.Raft.Vote.{may_vote, answer_vote, request_vote}
use oh_my_db.Raft.Vote.Grant.{
  FreeToVote, Voted, request_vote-Voted, request_vote-stranger, request_vote-newer,
  request_vote-known, request_vote-granted,
}

-- Calls with their arrival times, answered in order.
unfoldable pub serve_votes : List (ℕ × RequestVoteParams) → Replica → Replica
serve_votes [] s = s
serve_votes ((now, args) ∷ calls) s = serve_votes calls (request_vote now args s).0

-- The vote of term `t` went to `c`, or term `t` is over.
abbrev pub Held : ℤ → ℤ → Replica → Type 0
Held t c s = (t <ℤ s.current_term) ⊎ ((s.current_term ≡ t) × (s.voted_for ≡ c))

answer-Held :
    (t c : ℤ) (now : ℕ) (args : RequestVoteParams) (s : Replica)
    → c ≢ minus_one
    → Held t c s
    → Held t c (answer_vote now args s).0
unfolding answer_vote may_vote
answer-Held t c now args s real h = elim (Bool-cases (may_vote args s)) [
  | inl e ↦
      rw e (ground (arith, ==ℤ_iff s.voted_for minus_one, ==ℤ_iff s.voted_for args.candidate_id))
  | inr e ↦ rw e h
]

request_vote-Held :
    (t c : ℤ) (now : ℕ) (args : RequestVoteParams) (s : Replica)
    → c ≢ minus_one
    → Held t c s
    → Held t c (request_vote now args s).0
unfolding become_follower
request_vote-Held t c now args s real h = elim (Bool-cases (contains args.candidate_id s.peers)) [
  | inr e ↦ rw (request_vote-stranger now args s e) h
  | inl e ↦ elim (Bool-cases (ltb_ℤ s.current_term args.term)) [
    | inl newer ↦
        rw (request_vote-newer now args s e newer)
          (answer-Held t c now args (become_follower now args.term s) real (ground arith))
    | inr known ↦ rw (request_vote-known now args s e known) (answer-Held t c now args s real h)
  ]
]

serve_votes-Held :
    (t c : ℤ) (calls : List (ℕ × RequestVoteParams)) (s : Replica)
    → c ≢ minus_one
    → Held t c s
    → Held t c (serve_votes calls s)
unfolding serve_votes
serve_votes-Held t c [] s real h = h
serve_votes-Held t c ((now, args) ∷ calls) s real h =
    serve_votes-Held t c calls (request_vote now args s).0 real
      (request_vote-Held t c now args s real h)

-- Once a vote of a term is granted, then whatever requests come next, in any order and for any
-- terms, another grant in that term goes to the same candidate. The candidate's id is no -1.
pub one_vote_per_term :
    (now later : ℕ) (first second : RequestVoteParams) (calls : List (ℕ × RequestVoteParams))
    (s : Replica)
    → first.candidate_id ≢ minus_one
    → first.term ≡ second.term
    → (request_vote now first s).1.vote_granted ≡ true
    → let t = serve_votes calls (request_vote now first s).0 in
      (request_vote later second t).1.vote_granted ≡ true → first.candidate_id ≡ second.candidate_id
one_vote_per_term now later first second calls s real same granted again =
    ground (arith, kept, free, real)
  where
    v : Voted first (request_vote now first s).0
    v = request_vote-Voted now first s granted

    kept : Held first.term first.candidate_id (serve_votes calls (request_vote now first s).0)
    kept =
        serve_votes-Held first.term first.candidate_id calls (request_vote now first s).0 real
          (inr (v.term, v.vote))

    free : FreeToVote second (serve_votes calls (request_vote now first s).0)
    free =
        ((request_vote-granted later second (serve_votes calls (request_vote now first s).0)).0
          again).1
