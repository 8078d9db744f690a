-- ===== src/Raft/Replication/Session/Kept.antt =====
-- What the steps of a leader of ohmyraft/OhMyRaft.H do to its log and to `MatchIndex`.
use oh_my_db.Prelude.{
  ℕ, ◌≡◌, refl, sym, ap, ◌∙◌, inl, inr, ◌⊎◌, ℤ, minus_one, Map, find, insert, erase, find-insert,
  find-erase, true, ◌&&◌, none, some, some-eq-some, >>=-eq-some, List, [], ◌∷◌, plus, dec, ltb_ℤ,
  ◌==ℤ◌, arith, Bool-cases,
}
use oh_my_db.Consensus.{
  OpKind, get, put, add_server, remove_server, unknown, Operation, leader, AppendEntriesRet,
}
use oh_my_db.Persist.Log.{push_back}
use oh_my_db.Raft.{Replica}
use oh_my_db.Raft.Roles.{
  become_follower, apply_add_server, apply_remove_server, add_peer, remove_peer, persist,
}
use oh_my_db.Raft.Append.{apply_config, queue_committed, committed_ops}
use oh_my_db.Raft.Leader.{
  append_inputs, begin_iter, leader_commit, commit_and_queue, count_success, is_leader,
  handle_append_reply,
}
use oh_my_db.Raft.Threads.{raft_round, take_inputs}

-- A match index that is filed for the peer is -1, or was filed before.
abbrev pub FiledBefore : ℤ → Map ℤ → Map ℤ → Type 0
FiledBefore peer new old =
    (i : ℤ) → find peer new ≡ some i → (i ≡ minus_one) ⊎ (find peer old ≡ some i)

filed_insert : (peer k : ℤ) (m : Map ℤ) → FiledBefore peer (insert k minus_one m) m
filed_insert peer k m i h = elim (Bool-cases (k ==ℤ peer)) [
  | inl e ↦
      let new : find peer (insert k minus_one m) ≡ some minus_one =
        find-insert k peer minus_one m ∙ rw e refl in
      inl (some-eq-some (sym h ∙ new))
  | inr e ↦
      let old : find peer (insert k minus_one m) ≡ find peer m =
        find-insert k peer minus_one m ∙ rw e refl in
      inr (sym old ∙ h)
]

filed_erase : (peer k : ℤ) (m : Map ℤ) → FiledBefore peer (erase k m) m
filed_erase peer k m i h = elim (Bool-cases (k ==ℤ peer)) [
  | inl e ↦
      let gone : find peer (erase k m) ≡ none = find-erase k peer m ∙ rw e refl in
      absurd (ground (arith, sym h ∙ gone))
  | inr e ↦
      let old : find peer (erase k m) ≡ find peer m = find-erase k peer m ∙ rw e refl in
      inr (sym old ∙ h)
]

match_index-apply_config :
    (peer : ℤ) (k : OpKind) (s : Replica)
    → FiledBefore peer (apply_config k s).match_index s.match_index
unfolding apply_config apply_add_server apply_remove_server add_peer remove_peer persist
match_index-apply_config peer (get _) s i h = inr h
match_index-apply_config peer (put _ _) s i h = inr h
match_index-apply_config peer (add_server info) s i h = elim (Bool-cases (s.id ==ℤ info.id)) [
  | inl e ↦ inr (rw e at h)
  | inr e ↦ filed_insert peer info.id s.match_index i (rw e at h)
]
match_index-apply_config peer (remove_server k) s i h = elim (Bool-cases (s.id ==ℤ k)) [
  | inl e ↦ inr (rw e at h)
  | inr e ↦ filed_erase peer k s.match_index i (rw e at h)
]
match_index-apply_config peer (unknown _ _) s i h = inr h

match_index-append_inputs :
    (peer : ℤ) (ops : List Operation) (s : Replica)
    → FiledBefore peer (append_inputs ops s).match_index s.match_index
unfolding append_inputs
match_index-append_inputs peer [] s i h = inr h
match_index-append_inputs peer (op ∷ ops) s i h =
    let t = record s { logs = push_back (record { term = s.current_term; op = op }) s.logs } in
    elim (match_index-append_inputs peer ops (apply_config op.kind t) i h) [
      | inl e ↦ inl e
      | inr e ↦ match_index-apply_config peer op.kind t i e
    ]

pub match_index-raft_round :
    (peer : ℤ) (s : Replica) → FiledBefore peer (raft_round leader s).match_index s.match_index
unfolding raft_round begin_iter take_inputs is_leader
match_index-raft_round peer s i h =
    match_index-append_inputs peer s.dispatch_out (take_inputs s) i h

unchanged :
    (u t : Replica)
    → u ≡ t
    → (t.logs ≡ u.logs) × (t.peers ≡ u.peers) × (t.match_index ≡ u.match_index)
unchanged u t e = (
  ap (λ (x : Replica). x.logs) (sym e),
  ap (λ (x : Replica). x.peers) (sym e),
  ap (λ (x : Replica). x.match_index) (sym e),
)

not_filed : {A B C D : Type 0} → A × B × C → A × B × (C ⊎ D)
not_filed (a, b, c) = (a, b, inl c)

commit_and_queue-kept :
    (s t : Replica)
    → commit_and_queue s ≡ some t
    → (t.logs ≡ s.logs) × (t.peers ≡ s.peers) × (t.match_index ≡ s.match_index)
unfolding commit_and_queue queue_committed
commit_and_queue-kept s t h =
    let (c, chosen, rest) = >>=-eq-some (leader_commit s) _ h in
    elim (Bool-cases (c ==ℤ s.commit_index)) [
      | inl e ↦ unchanged s t (some-eq-some (rw e at rest))
      | inr e ↦
          let (ops, queued, last) =
            >>=-eq-some (committed_ops s.last_applied c s.logs.items) _ (rw e at rest) in
          unchanged _ t (some-eq-some last)
    ]

-- What a reply changes: it leaves the log, and files the end of its request if it is a success.
pub handle_append_reply-kept :
    (now : ℕ) (peer saved next : ℤ) (count : ℕ) (reply : AppendEntriesRet) (s t : Replica)
    → handle_append_reply now peer saved next count reply s ≡ some t
    → (t.logs ≡ s.logs)
      × (t.peers ≡ s.peers)
      × ((t.match_index ≡ s.match_index)
          ⊎ ((reply.success ≡ true)
              × (t.match_index ≡ insert peer (dec (plus next count)) s.match_index)))
unfolding handle_append_reply count_success become_follower persist
handle_append_reply-kept now peer saved next count reply s t h =
    elim (Bool-cases (ltb_ℤ saved reply.term)) [
      | inl e ↦ not_filed (unchanged _ t (some-eq-some (rw e at h)))
      | inr e ↦ elim (Bool-cases (is_leader s.role && (saved ==ℤ reply.term))) [
        | inr k ↦ not_filed (unchanged _ t (some-eq-some (rw (e, k) at h)))
        | inl k ↦ elim (Bool-cases reply.success) [
          | inr m ↦ not_filed (unchanged _ t (some-eq-some (rw (e, k, m) at h)))
          | inl m ↦
              let kept = commit_and_queue-kept _ t (rw (e, k, m) at h) in
              (kept.0, kept.1, inr (m, kept.2))
        ]
      ]
    ]
