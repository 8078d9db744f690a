-- ===== src/Raft/Durable/Events.antt =====
-- The file of the log over the events of a replica of ohmyraft/OhMyRaft.H.
use oh_my_db.Prelude.{
  some, ℕ, ◌+◌, ◌≡◌, refl, sym, inl, inr, ℤ, Bool, true, false, ◌&&◌, not, List, [], ◌∷◌, contains,
  insert, dec, plus, ltb_ℤ, ltb, ◌-◌, ◌==ℤ◌, Bool-cases, if◌then◌else◌, IfSome, IfSome-some,
  IfSome-bind, subst,
}
use oh_my_db.Consensus.{
  Operation, RaftRole, follower, candidate, leader, dead, AppendEntriesRet, RequestVoteParams,
  RequestVoteRet, PeerNetworkConfig,
}
use oh_my_db.Persist.Log.Saved.{IsSaved, IsSaved-IsConsistent, persist-IsSaved}
use oh_my_db.Raft.{Replica}
use oh_my_db.Raft.Roles.{set_cluster_config, become_follower, add_peer, remove_peer}
use oh_my_db.Raft.Vote.{may_vote, answer_vote, request_vote}
use oh_my_db.Raft.Append.{strip, append_entries}
use oh_my_db.Raft.Leader.{
  append_args, leader_commit, commit_and_queue, count_success, is_leader, handle_append_reply,
}
use oh_my_db.Raft.Election.{
  is_candidate, has_quorum, handle_vote_reply, election_round, election_tick,
}
use oh_my_db.Raft.Membership.{known_leader, leave_cluster}
use oh_my_db.Raft.Threads.{
  needs_leader, submit, take_inputs, raft_round, network_update, set_router,
}
use oh_my_db.Raft.Machine.{
  Event, vote_request, append_request, vote_reply, peer_request, append_reply, timer, raft_period,
  submission, peer_added, peer_removed, network, configured, leader_looked_up, left_cluster, step,
  run,
}
use oh_my_db.Raft.Durable.Log.{
  LogSaved, SavedReply, append_inputs-IsConsistent, queue_committed-LogSaved,
  append_entries-LogSaved,
}

logs-request_vote :
    (now : ℕ) (args : RequestVoteParams) (s : Replica) → (request_vote now args s).0.logs ≡ s.logs
unfolding request_vote
logs-request_vote now args s = elim (Bool-cases (contains args.candidate_id s.peers)) [
  | inr h ↦ rw h
  | inl h ↦ rw h (answered (ltb_ℤ s.current_term args.term))
]
  where
    plain : (t : Replica) → (answer_vote now args t).0.logs ≡ t.logs
    plain t = elim (Bool-cases (may_vote args t)) [ inl k ↦ rw k | inr k ↦ rw k ]

    answered :
        (b : Bool)
        → (answer_vote now args (if b then become_follower now args.term s else s)).0.logs ≡ s.logs
    answered true = plain (become_follower now args.term s)
    answered false = plain s

logs-handle_vote_reply :
    (now : ℕ) (saved : ℤ) (reply : RequestVoteRet) (s : Replica)
    → (handle_vote_reply now saved reply s).logs ≡ s.logs
unfolding handle_vote_reply
logs-handle_vote_reply now saved reply s = elim (Bool-cases (is_candidate s.role)) [
  | inr h ↦ rw h
  | inl h ↦ rw h (elim (Bool-cases (ltb_ℤ saved reply.term)) [
    | inl k ↦ rw k
    | inr k ↦ rw k (elim (Bool-cases ((reply.term ==ℤ saved) && reply.vote_granted)) [
      | inr m ↦ rw m
      | inl m ↦
          rw m
            (elim (Bool-cases (has_quorum (record s { votes_received = s.votes_received + 1 }))) [
              | inl q ↦ rw q
              | inr q ↦ rw q
            ])
    ])
  ])
]

logs-election_round :
    (now timeout : ℕ) (r : RaftRole) (s : Replica) → (election_round now timeout r s).logs ≡ s.logs
unfolding election_round
logs-election_round now timeout leader s = refl
logs-election_round now timeout candidate s = refl
logs-election_round now timeout dead s = refl
logs-election_round now timeout follower s =
    elim (Bool-cases (ltb timeout (now - s.election_reset_event))) [ inl h ↦ rw h | inr h ↦ rw h ]

logs-network_update :
    (entries : List PeerNetworkConfig) (s : Replica) → (network_update entries s).logs ≡ s.logs
unfolding network_update
logs-network_update [] s = refl
logs-network_update (e ∷ es) s = logs-network_update es (record s { peers = set_router e s.peers })

logs-submit : (op : Operation) (s : Replica) → (submit op s).0.logs ≡ s.logs
unfolding submit
logs-submit op s = elim (Bool-cases (needs_leader op.kind && not (is_leader s.role))) [
  | inl h ↦ rw h
  | inr h ↦ rw h
]

raft_round-LogSaved : (role : RaftRole) (s : Replica) → LogSaved s → LogSaved (raft_round role s)
unfolding raft_round
raft_round-LogSaved role s h = elim (Bool-cases (is_leader role)) [
  | inr k ↦ rw k h
  | inl k ↦ rw k (
      persist-IsSaved strip _ (
        append_inputs-IsConsistent s.dispatch_out (take_inputs s)
          (IsSaved-IsConsistent strip s.logs h)))
]

commit_and_queue-LogSaved : (s : Replica) → LogSaved s → IfSome LogSaved (commit_and_queue s)
unfolding commit_and_queue
commit_and_queue-LogSaved s h = IfSome-bind LogSaved (leader_commit s) _ λ c _.
    elim (Bool-cases (c ==ℤ s.commit_index)) [
      | inl e ↦ rw e h
      | inr e ↦ rw e (queue_committed-LogSaved (record s { commit_index = c }) h)
    ]

handle_append_reply-LogSaved :
    (now : ℕ) (peer saved next : ℤ) (count : ℕ) (reply : AppendEntriesRet) (s : Replica)
    → LogSaved s
    → IfSome LogSaved (handle_append_reply now peer saved next count reply s)
unfolding handle_append_reply count_success become_follower
handle_append_reply-LogSaved now peer saved next count reply s d =
    elim (Bool-cases (ltb_ℤ saved reply.term)) [
      | inl h ↦ rw h d
      | inr h ↦ rw h (elim (Bool-cases (is_leader s.role && (saved ==ℤ reply.term))) [
        | inr k ↦ rw k d
        | inl k ↦ rw k (elim (Bool-cases reply.success) [
          | inr m ↦ rw m d
          | inl m ↦ rw m (
              commit_and_queue-LogSaved
                (record s {
                  next_index = insert peer (plus next count) s.next_index;
                  match_index = insert peer (dec (plus next count)) s.match_index;
                })
                d)
        ])
      ])
    ]

step-LogSaved : (e : Event) (s : Replica) → LogSaved s → IfSome LogSaved (step e s)
unfolding step add_peer remove_peer election_tick set_cluster_config known_leader leave_cluster
    become_follower
step-LogSaved (vote_request now args) s h =
    subst (IsSaved strip) (sym (logs-request_vote now args s)) h
step-LogSaved (append_request now args) s h =
    IfSome-bind LogSaved (append_entries now args s) _
      λ p e. IfSome-some SavedReply (append_entries-LogSaved now args s h) e
step-LogSaved (vote_reply now saved reply) s h =
    subst (IsSaved strip) (sym (logs-handle_vote_reply now saved reply s)) h
step-LogSaved (peer_request peer saved) s h =
    IfSome-bind LogSaved (append_args saved peer s) (λ args. some s) (λ args e. h)
step-LogSaved (append_reply now peer saved next count reply) s h =
    handle_append_reply-LogSaved now peer saved next count reply s h
step-LogSaved (timer now timeout) s h =
    subst (IsSaved strip) (sym (logs-election_round now timeout s.role s)) h
step-LogSaved (raft_period role) s h = raft_round-LogSaved role s h
step-LogSaved (submission op) s h = subst (IsSaved strip) (sym (logs-submit op s)) h
step-LogSaved (peer_added peer router) s h = h
step-LogSaved (peer_removed peer) s h = h
step-LogSaved (network entries) s h = subst (IsSaved strip) (sym (logs-network_update entries s)) h
step-LogSaved (configured config) s h = h
step-LogSaved leader_looked_up s h =
    elim (Bool-cases (contains s.last_known_leader_id s.cluster_config)) [
      | inl e ↦ rw e h
      | inr e ↦ rw e h
    ]
step-LogSaved (left_cluster now server_id) s h = elim (Bool-cases (server_id ==ℤ s.id)) [
  | inl e ↦ rw e h
  | inr e ↦ rw e h
]

pub run-LogSaved : (es : List Event) (s : Replica) → LogSaved s → IfSome LogSaved (run es s)
unfolding run
run-LogSaved [] s h = h
run-LogSaved (e ∷ es) s h =
    IfSome-bind LogSaved (step e s) (run es)
      λ t eq. run-LogSaved es t (IfSome-some LogSaved (step-LogSaved e s h) eq)
