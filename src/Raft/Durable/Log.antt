-- ===== src/Raft/Durable/Log.antt =====
-- The file of the log of ohmyraft/OhMyRaft.H in its handlers.
use oh_my_db.Prelude.{
  ℕ, ◌+◌, ◌≡◌, sym, ap, inl, inr, ℤ, none, List, [], ◌∷◌, drop, length, inc, pos, negsuc, ltb_ℤ,
  ltb, ◌==ℤ◌, min_ℤ, last_index, Bool-cases, IfSome, IfSome-some, IfSome-bind, subst,
}
use oh_my_db.Consensus.{Operation, AppendLogEntry, AppendEntriesParams, AppendEntriesRet}
use oh_my_db.Persist.Log.{push_back, resize}
use oh_my_db.Persist.Log.Saved.{
  IsConsistent, IsSaved, IsSaved-IsConsistent, push_back-IsConsistent, resize-IsConsistent,
  persist-IsSaved,
}
use oh_my_db.Raft.{Replica}
use oh_my_db.Raft.Append.{
  strip, match_count, abort_all, apply_config, push_entry, push_entries, replace_tail,
  accept_entries, prev_matches, touch_timer, queue_committed, committed_ops, follow_commit,
  take_entries, same_term, is_dead, append_entries,
}
use oh_my_db.Raft.Append.Entries.{logs-apply_config}
use oh_my_db.Raft.Append.Outcome.{
  Work, work, heard, ready, work-touch_timer, work-heard, work-ready, append_entries-dead,
  append_entries-stale, append_entries-current,
}
use oh_my_db.Raft.Leader.{append_inputs}

abbrev pub LogSaved : Replica → Type 0
LogSaved s = IsSaved strip s.logs

push_entries-IsConsistent :
    (es : List AppendLogEntry) (s : Replica)
    → IsConsistent strip s.logs
    → IsConsistent strip (push_entries es s).logs
unfolding push_entries push_entry
push_entries-IsConsistent [] s h = h
push_entries-IsConsistent (e ∷ es) s h =
    let t = record s { logs = push_back (record { term = e.term; op = e.op }) s.logs } in
    push_entries-IsConsistent es (push_entry e s) (
      subst (IsConsistent strip) (sym (logs-apply_config e.op.kind t))
        (push_back-IsConsistent strip (record { term = e.term; op = e.op }) s.logs h))

accept_entries-LogSaved :
    (at : ℕ) (entries : List AppendLogEntry) (s : Replica)
    → LogSaved s
    → LogSaved (accept_entries at entries s)
unfolding accept_entries replace_tail
accept_entries-LogSaved at entries s h =
    let m = match_count (drop at s.logs.items) entries in
    elim (Bool-cases (ltb m (length entries))) [
      | inr e ↦ rw e h
      | inl e ↦ rw e (
          persist-IsSaved strip _ (
            push_entries-IsConsistent (drop m entries)
              (record s {
                promises = abort_all (drop (at + m) s.logs.items) s.promises;
                logs = resize (at + m) s.logs;
              })
              (resize-IsConsistent strip (at + m) s.logs (IsSaved-IsConsistent strip s.logs h))))
    ]

pub append_inputs-IsConsistent :
    (ops : List Operation) (s : Replica)
    → IsConsistent strip s.logs
    → IsConsistent strip (append_inputs ops s).logs
unfolding append_inputs
append_inputs-IsConsistent [] s h = h
append_inputs-IsConsistent (op ∷ ops) s h =
    let t = record s { logs = push_back (record { term = s.current_term; op = op }) s.logs } in
    append_inputs-IsConsistent ops (apply_config op.kind t) (
      subst (IsConsistent strip) (sym (logs-apply_config op.kind t))
        (push_back-IsConsistent strip (record { term = s.current_term; op = op }) s.logs h))

pub queue_committed-LogSaved : (s : Replica) → LogSaved s → IfSome LogSaved (queue_committed s)
unfolding queue_committed
queue_committed-LogSaved s h =
    IfSome-bind LogSaved (committed_ops s.last_applied s.commit_index s.logs.items) _ λ ops _. h

follow_commit-LogSaved :
    (leader_commit : ℤ) (s : Replica) → LogSaved s → IfSome LogSaved (follow_commit leader_commit s)
unfolding follow_commit
follow_commit-LogSaved lc s h = elim (Bool-cases (ltb_ℤ s.commit_index lc)) [
  | inr e ↦ rw e h
  | inl e ↦ rw e (
      queue_committed-LogSaved
        (record s { commit_index = min_ℤ lc (last_index (length s.logs.items)) }) h)
]

take_entries-LogSaved :
    (args : AppendEntriesParams) (s : Replica) → LogSaved s → IfSome LogSaved (take_entries args s)
unfolding take_entries
take_entries-LogSaved args s h = go (inc args.prev_log_index)
  where
    go :
        (i : ℤ)
        → IfSome LogSaved (elim i [
          | pos at ↦ follow_commit args.leader_commit (accept_entries at args.entries s)
          | negsuc _ ↦ none
        ])
    go (pos at) =
        follow_commit-LogSaved args.leader_commit (accept_entries at args.entries s)
          (accept_entries-LogSaved at args.entries s h)
    go (negsuc n) = tt

abbrev pub SavedReply : Replica × AppendEntriesRet → Type 0
SavedReply p = LogSaved p.0

same_term-LogSaved :
    (args : AppendEntriesParams) (s : Replica) → LogSaved s → IfSome SavedReply (same_term args s)
unfolding same_term
same_term-LogSaved args s h =
    IfSome-bind SavedReply (prev_matches args.prev_log_index args.prev_log_term s.logs.items) _
      λ found _. elim (Bool-cases found) [
        | inr e ↦ rw e h
        | inl e ↦ rw e (
            IfSome-bind SavedReply (take_entries args s) _
              λ t run. IfSome-some LogSaved (take_entries-LogSaved args s h) run)
      ]

same_logs : (s t : Replica) → work t ≡ work s → LogSaved s → LogSaved t
same_logs s t e h = subst (IsSaved strip) (sym (ap (λ (w : Work). w.logs) e)) h

pub append_entries-LogSaved :
    (now : ℕ) (args : AppendEntriesParams) (s : Replica)
    → LogSaved s
    → IfSome SavedReply (append_entries now args s)
append_entries-LogSaved now args s h = elim (Bool-cases (is_dead s.role)) [
  | inl gone ↦
      rw (append_entries-dead now args s gone)
        (same_logs s (touch_timer now args s) (work-touch_timer now args s) h)
  | inr alive ↦ elim (Bool-cases (args.term ==ℤ (heard now args s).current_term)) [
    | inr stale ↦
        rw (append_entries-stale now args s alive stale)
          (same_logs s (heard now args s) (work-heard now args s) h)
    | inl current ↦ rw (append_entries-current now args s alive current) (
        same_term-LogSaved args (ready now args s)
          (same_logs s (ready now args s) (work-ready now args s) h))
  ]
]
