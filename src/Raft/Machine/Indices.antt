-- ===== src/Raft/Machine/Indices.antt =====
-- `CommitIndex` and `LastApplied` in the steps of ohmyraft/OhMyRaft.H that do not deal with them.
use oh_my_db.Prelude.{
  ℕ, ◌+◌, ◌-◌, ◌≡◌, refl, ap, ◌∙◌, inl, inr, ℤ, ◌&&◌, not, List, [], ◌∷◌, contains, ltb, ltb_ℤ,
  ◌==ℤ◌, Bool-cases,
}
use oh_my_db.Consensus.{
  RaftRole, follower, candidate, leader, dead, Operation, RequestVoteParams, RequestVoteRet,
  PeerNetworkConfig,
}
use oh_my_db.Raft.{Replica}
use oh_my_db.Raft.Roles.{become_follower, become_candidate, become_leader}
use oh_my_db.Persist.Log.{push_back}
use oh_my_db.Raft.Vote.Grant.{request_vote-stranger, request_vote-newer, request_vote-known}
use oh_my_db.Raft.Vote.{may_vote, answer_vote, request_vote}
use oh_my_db.Raft.Append.{apply_config}
use oh_my_db.Raft.Append.Kept.{Core, core-apply_config}
use oh_my_db.Raft.Leader.{append_inputs, begin_iter, is_leader}
use oh_my_db.Raft.Election.{
  is_candidate, has_quorum, start_election, count_vote, handle_vote_reply, election_round,
}
use oh_my_db.Raft.Membership.{known_leader, leave_cluster}
use oh_my_db.Raft.Threads.{
  needs_leader, submit, take_inputs, raft_round, network_update, set_router,
}

-- The two indices, which most steps leave alone.
abbrev pub indices : Replica → ℤ × ℤ
indices s = (s.commit_index, s.last_applied)

answer_vote-indices :
    (now : ℕ) (args : RequestVoteParams) (s : Replica)
    → indices (answer_vote now args s).0 ≡ indices s
unfolding answer_vote
answer_vote-indices now args s = elim (Bool-cases (may_vote args s)) [
  | inl e ↦ rw e refl
  | inr e ↦ rw e refl
]

pub request_vote-indices :
    (now : ℕ) (args : RequestVoteParams) (s : Replica)
    → indices (request_vote now args s).0 ≡ indices s
unfolding become_follower
request_vote-indices now args s = elim (Bool-cases (contains args.candidate_id s.peers)) [
  | inr h ↦ rw (request_vote-stranger now args s h) refl
  | inl h ↦ elim (Bool-cases (ltb_ℤ s.current_term args.term)) [
    | inl k ↦
        rw (request_vote-newer now args s h k)
          (answer_vote-indices now args (become_follower now args.term s))
    | inr k ↦ rw (request_vote-known now args s h k) (answer_vote-indices now args s)
  ]
]

pub handle_vote_reply-indices :
    (now : ℕ) (saved : ℤ) (reply : RequestVoteRet) (s : Replica)
    → indices (handle_vote_reply now saved reply s) ≡ indices s
unfolding handle_vote_reply count_vote become_leader become_follower
handle_vote_reply-indices now saved reply s = elim (Bool-cases (is_candidate s.role)) [
  | inr h ↦ rw h refl
  | inl h ↦ elim (Bool-cases (ltb_ℤ saved reply.term)) [
    | inl k ↦ rw (h, k) refl
    | inr k ↦ elim (Bool-cases ((reply.term ==ℤ saved) && reply.vote_granted)) [
      | inr m ↦ rw (h, k, m) refl
      | inl m ↦
          rw (h, k, m)
            (elim (Bool-cases (has_quorum (record s { votes_received = s.votes_received + 1 }))) [
              | inl q ↦ rw q refl
              | inr q ↦ rw q refl
            ])
    ]
  ]
]

pub election_round-indices :
    (now timeout : ℕ) (r : RaftRole) (s : Replica)
    → indices (election_round now timeout r s) ≡ indices s
unfolding election_round start_election become_candidate
election_round-indices now timeout leader s = refl
election_round-indices now timeout candidate s = refl
election_round-indices now timeout dead s = refl
election_round-indices now timeout follower s =
    elim (Bool-cases (ltb timeout (now - s.election_reset_event))) [
      | inl h ↦ rw h refl
      | inr h ↦ rw h refl
    ]

append_inputs-indices :
    (ops : List Operation) (s : Replica) → indices (append_inputs ops s) ≡ indices s
unfolding append_inputs
append_inputs-indices [] s = refl
append_inputs-indices (op ∷ ops) s =
    let t = record s { logs = push_back (record { term = s.current_term; op = op }) s.logs } in
    append_inputs-indices ops (apply_config op.kind t)
    ∙ ap (λ (c : Core). (c.commit_index, c.last_applied)) (core-apply_config op.kind t)

pub raft_round-indices : (role : RaftRole) (s : Replica) → indices (raft_round role s) ≡ indices s
unfolding raft_round begin_iter
raft_round-indices role s = elim (Bool-cases (is_leader role)) [
  | inl h ↦ rw h (append_inputs-indices s.dispatch_out (take_inputs s))
  | inr h ↦ rw h refl
]

pub network_update-indices :
    (entries : List PeerNetworkConfig) (s : Replica)
    → indices (network_update entries s) ≡ indices s
unfolding network_update
network_update-indices [] s = refl
network_update-indices (e ∷ es) s =
    network_update-indices es (record s { peers = set_router e s.peers })

pub submit-indices : (op : Operation) (s : Replica) → indices (submit op s).0 ≡ indices s
unfolding submit
submit-indices op s = elim (Bool-cases (needs_leader op.kind && not (is_leader s.role))) [
  | inl h ↦ rw h refl
  | inr h ↦ rw h refl
]

pub looked_up-indices : (s : Replica) → indices (known_leader s).0 ≡ indices s
unfolding known_leader
looked_up-indices s = elim (Bool-cases (contains s.last_known_leader_id s.cluster_config)) [
  | inl h ↦ rw h refl
  | inr h ↦ rw h refl
]

pub leave_cluster-indices :
    (now : ℕ) (k : ℤ) (s : Replica) → indices (leave_cluster now k s) ≡ indices s
unfolding leave_cluster become_follower
leave_cluster-indices now k s = elim (Bool-cases (k ==ℤ s.id)) [
  | inl h ↦ rw h refl
  | inr h ↦ rw h refl
]
