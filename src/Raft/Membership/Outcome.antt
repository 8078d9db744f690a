-- ===== src/Raft/Membership/Outcome.antt =====
-- What the answers of `AddServer` and `RemoveServer` of ohmyraft/OhMyRaft.H mean.
use oh_my_db.Prelude.{
  ℕ, ◌≡◌, refl, inl, inr, minus_one, true, false, none, contains, ==ℤ_refl, Bool-cases, arith,
}
use oh_my_db.Consensus.{
  ok, not_leader, server_exists, server_not_found, AddServerParams, RemoveServerParams,
}
use oh_my_db.Raft.{Replica}
use oh_my_db.Raft.Roles.{become_follower}
use oh_my_db.Raft.Leader.{is_leader}
use oh_my_db.Raft.Membership.{
  cur_committed, await_added, await_removed, add_op, remove_op, handle_add_server, leave_cluster,
  handle_remove_server,
}
use oh_my_db.Raft.Membership.Waiting.{Committed, IsWatch, not_done, change_config-Committed}

added-IsWatch : IsWatch await_added
unfolding await_added
added-IsWatch = record {
  fine = λ prev s. elim (Bool-cases (is_leader s.role)) [
    | inl e ↦ elim (Bool-cases (cur_committed prev s)) [
      | inl k ↦ rw (e, k) (ground arith)
      | inr k ↦ rw (e, k) (ground arith)
    ]
    | inr e ↦ rw e (ground arith)
  ];
  told = λ prev s h. elim (Bool-cases (is_leader s.role)) [
    | inl e ↦ elim (Bool-cases (cur_committed prev s)) [
      | inl k ↦ k
      | inr k ↦ absurd (ground (arith, rw (e, k) at h))
    ]
    | inr e ↦ absurd (ground (arith, rw e at h))
  ];
}

removed-IsWatch : IsWatch await_removed
unfolding await_removed
removed-IsWatch = record {
  fine = λ prev s. elim (Bool-cases (cur_committed prev s)) [
    | inl k ↦ rw k (ground arith)
    | inr k ↦ rw k (ground arith)
  ];
  told = λ prev s h. elim (Bool-cases (cur_committed prev s)) [
    | inl k ↦ k
    | inr k ↦ absurd (ground (arith, rw k at h))
  ];
}

-- When `AddServer` answers success, the replica was the leader and did not know the server when the
-- call came in; within 100 looks at the state it found every earlier configuration change committed;
-- it then submitted the addition, and within 100 more looks saw a later configuration change
-- committed.
pub add_server-Committed :
    (args : AddServerParams) (seen : ℕ → Replica)
    → (handle_add_server args seen).error_code ≡ ok
    → (is_leader (seen 0).role ≡ true)
      × (contains args.server_id (seen 0).cluster_config ≡ false)
      × Committed (add_op args) (λ s. s) seen (handle_add_server args seen)
unfolding handle_add_server
add_server-Committed args seen h = elim (Bool-cases (is_leader (seen 0).role)) [
  | inr e ↦
      absurd (not_done not_leader none (seen 0) (ground arith) (rw (e, handle_add_server) at h))
  | inl e ↦ elim (Bool-cases (contains args.server_id (seen 0).cluster_config)) [
    | inl k ↦
        absurd
          (not_done server_exists none (seen 0) (ground arith) (rw (e, k, handle_add_server) at h))
    | inr k ↦ (
      e,
      k,
      rw (e, k, handle_add_server)
          (change_config-Committed (add_op args) await_added (λ s. s) seen added-IsWatch
            (rw (e, k, handle_add_server) at h)),
    )
  ]
]

-- When `RemoveServer` answers success, the replica was the leader and knew the server; an earlier
-- change was found committed before the removal was submitted, and a later change after it.
pub remove_server-Committed :
    (now : ℕ) (args : RemoveServerParams) (seen : ℕ → Replica)
    → (handle_remove_server now args seen).error_code ≡ ok
    → (is_leader (seen 0).role ≡ true)
      × (contains args.server_id (seen 0).cluster_config ≡ true)
      × Committed
          (remove_op args)
          (leave_cluster now args.server_id)
          seen
          (handle_remove_server now args seen)
unfolding handle_remove_server
remove_server-Committed now args seen h = elim (Bool-cases (is_leader (seen 0).role)) [
  | inr e ↦
      absurd (not_done not_leader none (seen 0) (ground arith) (rw (e, handle_remove_server) at h))
  | inl e ↦ elim (Bool-cases (contains args.server_id (seen 0).cluster_config)) [
    | inr k ↦ absurd (
        not_done server_not_found none (seen 0) (ground arith)
          (rw (e, k, handle_remove_server) at h))
    | inl k ↦ (
      e,
      k,
      rw (e, k, handle_remove_server)
          (change_config-Committed (remove_op args) await_removed (leave_cluster now args.server_id)
            seen removed-IsWatch (rw (e, k, handle_remove_server) at h)),
    )
  ]
]

-- A leader that removes itself with success forgets its term and its vote: it is left in term -1,
-- earlier than any term it was in.
pub remove_self-forgets_term :
    (now : ℕ) (args : RemoveServerParams) (seen : ℕ → Replica)
    → (handle_remove_server now args seen).error_code ≡ ok
    → ((i : ℕ) → (seen i).id ≡ args.server_id)
    → ((handle_remove_server now args seen).left.current_term ≡ minus_one)
      × ((handle_remove_server now args seen).left.voted_for ≡ minus_one)
unfolding leave_cluster become_follower
remove_self-forgets_term now args seen h mine =
    let (_, _, c) = remove_server-Committed now args seen h in
    rw (c.state, mine c.seen_done, ==ℤ_refl args.server_id) (refl, refl)
