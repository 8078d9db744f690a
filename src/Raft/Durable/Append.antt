-- ===== src/Raft/Durable/Append.antt =====
-- The files of term and vote during `AppendEntries` of ohmyraft/OhMyRaft.H.
use oh_my_db.Raft.Durable.{IsDurable, persist-IsDurable, become_follower-IsDurable}
use oh_my_db.Prelude.{
  ℕ, refl, inl, inr, ℤ, pos, none, List, [], ◌∷◌, ltb_ℤ, leb_ℤ, ◌==ℤ◌, ltb, ◌+◌, min_ℤ, last_index,
  IfSome, IfSome-some, IfSome-bind, length, drop, inc, negsuc, Bool-cases,
}
use oh_my_db.Consensus.{
  OpKind, add_server, remove_server, AppendLogEntry, AppendEntriesParams, AppendEntriesRet,
}
use oh_my_db.Persist.Store.{load_int-store}
use oh_my_db.Raft.{Replica}
use oh_my_db.Persist.Log.{push_back, resize}
use oh_my_db.Raft.Append.{
  match_count, abort_all, apply_config, push_entry, push_entries, replace_tail, accept_entries,
  queue_committed, committed_ops, follow_commit, hear_leader, touch_timer, is_dead, is_follower,
  yield_to_leader, take_entries, prev_matches, same_term, append_entries,
}
use oh_my_db.Raft.Append.Outcome.{
  heard, ready, append_entries-dead, append_entries-stale, append_entries-current,
}
use oh_my_db.Raft.Roles.{persist, apply_add_server, apply_remove_server, add_peer}

pub apply_config-IsDurable : (k : OpKind) (s : Replica) → IsDurable s → IsDurable (apply_config k s)
unfolding apply_config apply_add_server apply_remove_server persist add_peer
apply_config-IsDurable (add_server info) s d = elim (Bool-cases (s.id ==ℤ info.id)) [
  | inl h ↦ rw h (record { vote = (persist-IsDurable s).vote; term = (persist-IsDurable s).term })
  | inr h ↦
      rw h (record {
        vote = rw load_int-store (rw load_int-store refl);
        term = rw load_int-store refl;
      })
]
apply_config-IsDurable (remove_server k) s d = elim (Bool-cases (s.id ==ℤ k)) [
  | inl h ↦ rw h (record { vote = (persist-IsDurable s).vote; term = (persist-IsDurable s).term })
  | inr h ↦ rw h (record { vote = (persist-IsDurable s).vote; term = (persist-IsDurable s).term })
]
apply_config-IsDurable _ s d = d

push_entries-IsDurable :
    (es : List AppendLogEntry) (s : Replica) → IsDurable s → IsDurable (push_entries es s)
unfolding push_entries push_entry
push_entries-IsDurable [] s d = d
push_entries-IsDurable (e ∷ es) s d = push_entries-IsDurable es (push_entry e s) (
    apply_config-IsDurable e.op.kind
      (record s { logs = push_back (record { term = e.term; op = e.op }) s.logs })
      (record { vote = d.vote; term = d.term }))

accept_entries-IsDurable :
    (at : ℕ) (entries : List AppendLogEntry) (s : Replica)
    → IsDurable s
    → IsDurable (accept_entries at entries s)
unfolding accept_entries replace_tail
accept_entries-IsDurable at entries s d =
    let m = match_count (drop at s.logs.items) entries in
    elim (Bool-cases (ltb m (length entries))) [
      | inr h ↦ rw h d
      | inl h ↦
          let k =
            push_entries-IsDurable (drop m entries)
              (record s {
                promises = abort_all (drop (at + m) s.logs.items) s.promises;
                logs = resize (at + m) s.logs;
              })
              (record { vote = d.vote; term = d.term }) in
          rw h (record { vote = k.vote; term = k.term })
    ]

pub queue_committed-IsDurable : (s : Replica) → IsDurable s → IfSome IsDurable (queue_committed s)
unfolding queue_committed
queue_committed-IsDurable s d =
    IfSome-bind IsDurable (committed_ops s.last_applied s.commit_index s.logs.items) _
      λ ops _. record { vote = d.vote; term = d.term }

follow_commit-IsDurable :
    (leader_commit : ℤ) (s : Replica)
    → IsDurable s
    → IfSome IsDurable (follow_commit leader_commit s)
unfolding follow_commit
follow_commit-IsDurable lc s d = elim (Bool-cases (ltb_ℤ s.commit_index lc)) [
  | inr h ↦ rw h d
  | inl h ↦ rw h (
      queue_committed-IsDurable
        (record s { commit_index = min_ℤ lc (last_index (length s.logs.items)) })
        (record { vote = d.vote; term = d.term }))
]

take_entries-IsDurable :
    (args : AppendEntriesParams) (s : Replica)
    → IsDurable s
    → IfSome IsDurable (take_entries args s)
unfolding take_entries
take_entries-IsDurable args s d = go (inc args.prev_log_index)
  where
    go :
        (i : ℤ)
        → IfSome IsDurable (elim i [
          | pos at ↦ follow_commit args.leader_commit (accept_entries at args.entries s)
          | negsuc _ ↦ none
        ])
    go (pos at) =
        follow_commit-IsDurable args.leader_commit (accept_entries at args.entries s)
          (accept_entries-IsDurable at args.entries s d)
    go (negsuc n) = tt

abbrev pub DurableReply : Replica × AppendEntriesRet → Type 0
DurableReply p = IsDurable p.0

same_term-IsDurable :
    (args : AppendEntriesParams) (s : Replica)
    → IsDurable s
    → IfSome DurableReply (same_term args s)
unfolding same_term
same_term-IsDurable args s d =
    IfSome-bind DurableReply (prev_matches args.prev_log_index args.prev_log_term s.logs.items) _
      λ found _. elim (Bool-cases found) [
        | inr h ↦ rw h d
        | inl h ↦ rw h (
            IfSome-bind DurableReply (take_entries args s) _
              λ t e. IfSome-some IsDurable (take_entries-IsDurable args s d) e)
      ]

heard-IsDurable :
    (now : ℕ) (args : AppendEntriesParams) (s : Replica)
    → IsDurable s
    → IsDurable (heard now args s)
unfolding hear_leader touch_timer
heard-IsDurable now args s d = elim (Bool-cases (leb_ℤ s.current_term args.term)) [
  | inl k ↦ rw k (elim (Bool-cases (ltb_ℤ s.current_term args.term)) [
    | inl h ↦ rw h (
        become_follower-IsDurable now args.term
          (record s { election_reset_event = now; last_known_leader_id = args.leader_id }))
    | inr h ↦ rw h (record { vote = d.vote; term = d.term })
  ])
  | inr k ↦ rw k (elim (Bool-cases (ltb_ℤ s.current_term args.term)) [
    | inl h ↦ rw h (
        become_follower-IsDurable now args.term
          (record s { last_known_leader_id = args.leader_id }))
    | inr h ↦ rw h (record { vote = d.vote; term = d.term })
  ])
]

yield-IsDurable :
    (now : ℕ) (args : AppendEntriesParams) (s : Replica)
    → IsDurable s
    → IsDurable (yield_to_leader now args s)
unfolding yield_to_leader
yield-IsDurable now args s d = elim (Bool-cases (is_follower s.role)) [
  | inl h ↦ rw h d
  | inr h ↦ rw h (become_follower-IsDurable now args.term s)
]

touch-IsDurable :
    (now : ℕ) (args : AppendEntriesParams) (s : Replica)
    → IsDurable s
    → IsDurable (touch_timer now args s)
unfolding touch_timer
touch-IsDurable now args s d = elim (Bool-cases (leb_ℤ s.current_term args.term)) [
  | inl h ↦ rw h (record { vote = d.vote; term = d.term })
  | inr h ↦ rw h d
]

pub append_entries-IsDurable :
    (now : ℕ) (args : AppendEntriesParams) (s : Replica)
    → IsDurable s
    → IfSome DurableReply (append_entries now args s)
append_entries-IsDurable now args s d = elim (Bool-cases (is_dead s.role)) [
  | inl gone ↦ rw (append_entries-dead now args s gone) (touch-IsDurable now args s d)
  | inr alive ↦ elim (Bool-cases (args.term ==ℤ (heard now args s).current_term)) [
    | inr stale ↦ rw (append_entries-stale now args s alive stale) (heard-IsDurable now args s d)
    | inl current ↦ rw (append_entries-current now args s alive current) (
        same_term-IsDurable args (ready now args s)
          (yield-IsDurable now args (heard now args s) (heard-IsDurable now args s d)))
  ]
]
