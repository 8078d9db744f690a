-- ===== src/Raft/Replication/Network/Moved.antt =====
-- The replies on which the leader of ohmyraft/OhMyRaft.H moves its commit index, and what the cluster holds
-- then.
use oh_my_db.Prelude.{
  ℕ, ◌≡◌, sym, ap, ◌∙◌, inl, inr, ◌⊎◌, ℤ, minus_one, insert, ==ℤ_iff, true, ◌&&◌, some,
  some-eq-some, >>=-eq-some, [], dec, plus, ltb_ℤ, ◌==ℤ◌, Bool-cases,
}
use oh_my_db.Consensus.{AppendEntriesRet}
use oh_my_db.Signal.{idle}
use oh_my_db.Raft.{Replica}
use oh_my_db.Raft.Append.{queue_committed, committed_ops}
use oh_my_db.Raft.Leader.{
  leader_commit, commit_and_queue, count_success, is_leader, handle_append_reply,
}
use oh_my_db.Raft.Roles.{become_follower, persist}
use oh_my_db.Raft.Replication.Network.{Network}
use oh_my_db.Raft.Replication.Network.Filed.{Filed}

-- The leader once its thread has counted a success, before it looks for a new commit index.
abbrev pub counted : ℤ → ℤ → ℕ → Replica → Replica
counted peer next count s = record s {
  next_index = insert peer (plus next count) s.next_index;
  match_index = insert peer (dec (plus next count)) s.match_index;
}

-- What `commit_and_queue` leaves as it is.
abbrev pub view : Replica → Replica
view s = record s {
  commit_index = minus_one;
  raft_out = [];
  last_applied = minus_one;
  more_exec_jobs_ready = idle;
}

stays : (u t : Replica) → u ≡ t → t.commit_index ≡ u.commit_index
stays u t e = ap (λ (x : Replica). x.commit_index) (sym e)

pub commit_and_queue-view :
    (s t : Replica)
    → commit_and_queue s ≡ some t
    → (leader_commit s ≡ some t.commit_index) × (view t ≡ view s)
unfolding commit_and_queue queue_committed
commit_and_queue-view s t h =
    let (c, chosen, rest) = >>=-eq-some (leader_commit s) _ h in
    elim (Bool-cases (c ==ℤ s.commit_index)) [
      | inl e ↦
          let same : s ≡ t = some-eq-some (rw e at rest) in
          let index : c ≡ t.commit_index =
            (==ℤ_iff c s.commit_index).0 e ∙ ap (λ (x : Replica). x.commit_index) same in
          (chosen ∙ ap some index, ap view (sym same))
      | inr e ↦
          let (ops, queued, last) =
            >>=-eq-some (committed_ops s.last_applied c s.logs.items) _ (rw e at rest) in
          let same = some-eq-some last in
          (chosen ∙ ap some (ap (λ (x : Replica). x.commit_index) same), ap view (sym same))
    ]

-- A reply moves the commit index only as `leader_commit` chooses, after it was counted as a success.
pub handle_append_reply-moves :
    (now : ℕ) (peer saved next : ℤ) (count : ℕ) (reply : AppendEntriesRet) (s t : Replica)
    → handle_append_reply now peer saved next count reply s ≡ some t
    → (t.commit_index ≡ s.commit_index)
      ⊎ ((reply.success ≡ true)
          × (leader_commit (counted peer next count s) ≡ some t.commit_index)
          × (view t ≡ view (counted peer next count s)))
unfolding handle_append_reply count_success become_follower persist
handle_append_reply-moves now peer saved next count reply s t h =
    elim (Bool-cases (ltb_ℤ saved reply.term)) [
      | inl e ↦ inl (stays _ t (some-eq-some (rw e at h)))
      | inr e ↦ elim (Bool-cases (is_leader s.role && (saved ==ℤ reply.term))) [
        | inr k ↦ inl (stays _ t (some-eq-some (rw (e, k) at h)))
        | inl k ↦ elim (Bool-cases reply.success) [
          | inr m ↦ inl (stays _ t (some-eq-some (rw (e, k, m) at h)))
          | inl m ↦
              let (chosen, same) =
                commit_and_queue-view (counted peer next count s) t (rw (e, k, m) at h) in
              inr (m, chosen, same)
        ]
      ]
    ]

-- The network at the start of a term.
abbrev pub network_start : Replica → (ℤ → Replica) → Network
network_start l f = record { l = l; f = f; requests = λ p. []; replies = λ p. [] }
