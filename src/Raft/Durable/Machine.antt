-- ===== src/Raft/Durable/Machine.antt =====
-- The files of term and vote over the events of a replica of ohmyraft/OhMyRaft.H.
use oh_my_db.Prelude.{
  some, ℕ, ◌+◌, refl, inl, inr, ℤ, minus_one, false, ◌&&◌, List, [], ◌∷◌, insert, contains, dec,
  plus, inc, ltb_ℤ, ltb, ◌-◌, ◌==ℤ◌, Bool-cases, IfSome, IfSome-some, IfSome-bind, not,
}
use oh_my_db.Consensus.{
  RaftRole, follower, candidate, leader, dead, AppendEntriesRet, RequestVoteRet, Operation,
  PeerNetworkConfig,
}
use oh_my_db.Persist.Store.{load_int-store}
use oh_my_db.Persist.Log.{push_back}
use oh_my_db.Raft.{Replica}
use oh_my_db.Raft.Roles.{set_cluster_config, become_candidate, become_leader, add_peer, remove_peer}
use oh_my_db.Raft.Append.{apply_config, append_entries}
use oh_my_db.Raft.Leader.{
  append_args, append_inputs, begin_iter, leader_commit, commit_and_queue, count_success, is_leader,
  handle_append_reply,
}
use oh_my_db.Raft.Election.{
  is_candidate, has_quorum, start_election, count_vote, handle_vote_reply, election_round,
  election_tick,
}
use oh_my_db.Raft.Membership.{known_leader, leave_cluster}
use oh_my_db.Raft.Threads.{
  needs_leader, submit, take_inputs, raft_round, network_update, set_router, Disk, bootstrap,
}
use oh_my_db.Raft.Machine.{
  Event, vote_request, append_request, vote_reply, peer_request, append_reply, timer, raft_period,
  submission, peer_added, peer_removed, network, configured, leader_looked_up, left_cluster, step,
  run,
}
use oh_my_db.Raft.Durable.{IsDurable, become_follower-IsDurable, request_vote-IsDurable}
use oh_my_db.Raft.Durable.Append.{
  apply_config-IsDurable, queue_committed-IsDurable, DurableReply, append_entries-IsDurable,
}

become_leader-IsDurable : (now : ℕ) (s : Replica) → IsDurable (become_leader now s)
unfolding become_leader
become_leader-IsDurable now s = record {
  vote = rw load_int-store (rw load_int-store refl);
  term = rw load_int-store refl;
}

become_candidate-IsDurable :
    (now : ℕ) (term : ℤ) (s : Replica) → IsDurable (become_candidate now term s)
unfolding become_candidate
become_candidate-IsDurable now term s = record {
  vote = rw load_int-store (rw load_int-store refl);
  term = rw load_int-store refl;
}

count_vote-IsDurable : (now : ℕ) (s : Replica) → IsDurable s → IsDurable (count_vote now s)
unfolding count_vote
count_vote-IsDurable now s d =
    let t = record s { votes_received = s.votes_received + 1 } in
    elim (Bool-cases (has_quorum t)) [
      | inl h ↦ rw h (become_leader-IsDurable now t)
      | inr h ↦ rw h (record { vote = d.vote; term = d.term })
    ]

handle_vote_reply-IsDurable :
    (now : ℕ) (saved : ℤ) (reply : RequestVoteRet) (s : Replica)
    → IsDurable s
    → IsDurable (handle_vote_reply now saved reply s)
unfolding handle_vote_reply
handle_vote_reply-IsDurable now saved reply s d = elim (Bool-cases (is_candidate s.role)) [
  | inr h ↦ rw h d
  | inl h ↦ rw h (elim (Bool-cases (ltb_ℤ saved reply.term)) [
    | inl k ↦ rw k (become_follower-IsDurable now reply.term s)
    | inr k ↦ rw k (elim (Bool-cases ((reply.term ==ℤ saved) && reply.vote_granted)) [
      | inl m ↦ rw m (count_vote-IsDurable now s d)
      | inr m ↦ rw m d
    ])
  ])
]

election_tick-IsDurable :
    (now timeout : ℕ) (r : RaftRole) (s : Replica)
    → IsDurable s
    → IsDurable (election_round now timeout r s)
unfolding election_round start_election
election_tick-IsDurable now timeout leader s d = d
election_tick-IsDurable now timeout candidate s d = d
election_tick-IsDurable now timeout dead s d = record { vote = d.vote; term = d.term }
election_tick-IsDurable now timeout follower s d =
    elim (Bool-cases (ltb timeout (now - s.election_reset_event))) [
      | inr h ↦ rw h d
      | inl h ↦
          let k = become_candidate-IsDurable now (inc s.current_term) s in
          rw h (record { vote = k.vote; term = k.term })
    ]

append_inputs-IsDurable :
    (ops : List Operation) (s : Replica) → IsDurable s → IsDurable (append_inputs ops s)
unfolding append_inputs
append_inputs-IsDurable [] s d = d
append_inputs-IsDurable (op ∷ ops) s d =
    append_inputs-IsDurable ops
      (apply_config op.kind
        (record s { logs = push_back (record { term = s.current_term; op = op }) s.logs }))
      (apply_config-IsDurable op.kind
        (record s { logs = push_back (record { term = s.current_term; op = op }) s.logs })
        (record { vote = d.vote; term = d.term }))

raft_round-IsDurable : (role : RaftRole) (s : Replica) → IsDurable s → IsDurable (raft_round role s)
unfolding raft_round take_inputs begin_iter
raft_round-IsDurable role s d = elim (Bool-cases (is_leader role)) [
  | inr h ↦ rw h (record { vote = d.vote; term = d.term })
  | inl h ↦
      let k =
        append_inputs-IsDurable s.dispatch_out
          (record s { raft_in = s.dispatch_out; dispatch_out = s.raft_in })
          (record { vote = d.vote; term = d.term }) in
      rw h (record { vote = k.vote; term = k.term })
]

commit_and_queue-IsDurable : (s : Replica) → IsDurable s → IfSome IsDurable (commit_and_queue s)
unfolding commit_and_queue
commit_and_queue-IsDurable s d = IfSome-bind IsDurable (leader_commit s) _ λ c _.
    elim (Bool-cases (c ==ℤ s.commit_index)) [
      | inl h ↦ rw h d
      | inr h ↦ rw h (
          queue_committed-IsDurable (record s { commit_index = c })
            (record { vote = d.vote; term = d.term }))
    ]

handle_append_reply-IsDurable :
    (now : ℕ) (peer saved next : ℤ) (count : ℕ) (reply : AppendEntriesRet) (s : Replica)
    → IsDurable s
    → IfSome IsDurable (handle_append_reply now peer saved next count reply s)
unfolding handle_append_reply count_success
handle_append_reply-IsDurable now peer saved next count reply s d =
    elim (Bool-cases (ltb_ℤ saved reply.term)) [
      | inl h ↦ rw h (become_follower-IsDurable now reply.term s)
      | inr h ↦ rw h (elim (Bool-cases (is_leader s.role && (saved ==ℤ reply.term))) [
        | inr k ↦ rw k d
        | inl k ↦ rw k (elim (Bool-cases reply.success) [
          | inr m ↦ rw m (record { vote = d.vote; term = d.term })
          | inl m ↦ rw m (
              commit_and_queue-IsDurable
                (record s {
                  next_index = insert peer (plus next count) s.next_index;
                  match_index = insert peer (dec (plus next count)) s.match_index;
                })
                (record { vote = d.vote; term = d.term }))
        ])
      ])
    ]

network_update-IsDurable :
    (entries : List PeerNetworkConfig) (s : Replica)
    → IsDurable s
    → IsDurable (network_update entries s)
unfolding network_update
network_update-IsDurable [] s d = d
network_update-IsDurable (e ∷ es) s d =
    network_update-IsDurable es (record s { peers = set_router e s.peers })
      (record { vote = d.vote; term = d.term })

submit-IsDurable : (op : Operation) (s : Replica) → IsDurable s → IsDurable (submit op s).0
unfolding submit
submit-IsDurable op s d = elim (Bool-cases (needs_leader op.kind && not (is_leader s.role))) [
  | inl h ↦ rw h d
  | inr h ↦ rw h (record { vote = d.vote; term = d.term })
]

step-IsDurable : (e : Event) (s : Replica) → IsDurable s → IfSome IsDurable (step e s)
unfolding step add_peer remove_peer election_tick set_cluster_config known_leader leave_cluster
step-IsDurable (vote_request now args) s d = request_vote-IsDurable now args s d
step-IsDurable (append_request now args) s d =
    IfSome-bind IsDurable (append_entries now args s) _
      λ p e. IfSome-some DurableReply (append_entries-IsDurable now args s d) e
step-IsDurable (vote_reply now saved reply) s d = handle_vote_reply-IsDurable now saved reply s d
step-IsDurable (peer_request peer saved) s d =
    IfSome-bind IsDurable (append_args saved peer s) (λ args. some s) (λ args e. d)
step-IsDurable (append_reply now peer saved next count reply) s d =
    handle_append_reply-IsDurable now peer saved next count reply s d
step-IsDurable (timer now timeout) s d = election_tick-IsDurable now timeout s.role s d
step-IsDurable (raft_period role) s d = raft_round-IsDurable role s d
step-IsDurable (submission op) s d = submit-IsDurable op s d
step-IsDurable (peer_added peer router) s d = record {
  vote = rw load_int-store (rw load_int-store refl);
  term = rw load_int-store refl;
}
step-IsDurable (peer_removed peer) s d = record { vote = d.vote; term = d.term }
step-IsDurable (network entries) s d = network_update-IsDurable entries s d
step-IsDurable (configured config) s d = record {
  vote = rw load_int-store (rw load_int-store refl);
  term = rw load_int-store refl;
}
step-IsDurable leader_looked_up s d =
    elim (Bool-cases (contains s.last_known_leader_id s.cluster_config)) [
      | inl h ↦ rw h d
      | inr h ↦ rw h (record { vote = d.vote; term = d.term })
    ]
step-IsDurable (left_cluster now server_id) s d = elim (Bool-cases (server_id ==ℤ s.id)) [
  | inl h ↦ rw h (become_follower-IsDurable now minus_one s)
  | inr h ↦ rw h d
]

pub run-IsDurable : (es : List Event) (s : Replica) → IsDurable s → IfSome IsDurable (run es s)
unfolding run
run-IsDurable [] s d = d
run-IsDurable (e ∷ es) s d =
    IfSome-bind IsDurable (step e s) (run es)
      λ t eq. run-IsDurable es t (IfSome-some IsDurable (step-IsDurable e s d) eq)

pub fresh-IsDurable : (my_id : ℤ) (disk : Disk) → IsDurable (bootstrap my_id false disk)
unfolding bootstrap
fresh-IsDurable my_id disk = record {
  vote = rw load_int-store (rw load_int-store refl);
  term = rw load_int-store refl;
}
