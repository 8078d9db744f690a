-- ===== src/Raft/Append/Kept.antt =====
-- The fields of `RaftState` in ohmyraft/OhMyRaft.H beside the log and the configuration.
use oh_my_db.Prelude.{
  ℕ, ℤ, ◌+◌, ◌≡◌, refl, ◌∙◌, inl, inr, ◌==ℤ◌, List, [], ◌∷◌, length, Bool-cases, ltb, drop,
}
use oh_my_db.Consensus.{
  OpKind, get, put, add_server, remove_server, unknown, Operation, RaftRole, AppendLogEntry,
}
use oh_my_db.Signal.{TimeTravelSignal}
use oh_my_db.Persist.Log.{push_back, resize}
use oh_my_db.Raft.{Replica}
use oh_my_db.Raft.Roles.{apply_add_server, apply_remove_server}
use oh_my_db.Raft.Append.{
  match_count, abort_all, apply_config, push_entry, push_entries, replace_tail, accept_entries,
}

pub record Core : Type 0 where
  pub id : ℤ
  pub current_term : ℤ
  pub voted_for : ℤ
  pub role : RaftRole
  pub commit_index : ℤ
  pub last_applied : ℤ
  pub raft_out : List Operation
  pub more_exec_jobs_ready : TimeTravelSignal

abbrev pub core : Replica → Core
core s = record {
  id = s.id;
  current_term = s.current_term;
  voted_for = s.voted_for;
  role = s.role;
  commit_index = s.commit_index;
  last_applied = s.last_applied;
  raft_out = s.raft_out;
  more_exec_jobs_ready = s.more_exec_jobs_ready;
}

pub core-apply_config : (k : OpKind) (s : Replica) → core (apply_config k s) ≡ core s
unfolding apply_config apply_add_server apply_remove_server
core-apply_config (get _) s = refl
core-apply_config (put _ _) s = refl
core-apply_config (add_server info) s = elim (Bool-cases (s.id ==ℤ info.id)) [
  | inl h ↦ rw h
  | inr h ↦ rw h
]
core-apply_config (remove_server k) s = elim (Bool-cases (s.id ==ℤ k)) [
  | inl h ↦ rw h
  | inr h ↦ rw h
]
core-apply_config (unknown _ _) s = refl

pub core-push_entries : (es : List AppendLogEntry) (s : Replica) → core (push_entries es s) ≡ core s
unfolding push_entries push_entry
core-push_entries [] s = refl
core-push_entries (e ∷ es) s =
    core-push_entries es (push_entry e s)
    ∙ core-apply_config e.op.kind
        (record s { logs = push_back (record { term = e.term; op = e.op }) s.logs })

-- `accept_entries` touches neither the term, the vote, the role, nor what is committed or queued.
pub core-accept_entries :
    (at : ℕ) (entries : List AppendLogEntry) (s : Replica)
    → core (accept_entries at entries s) ≡ core s
unfolding accept_entries replace_tail
core-accept_entries at entries s =
    let m = match_count (drop at s.logs.items) entries in
    elim (Bool-cases (ltb m (length entries))) [
      | inr h ↦ rw h
      | inl h ↦ rw h (
          core-push_entries (drop m entries) (record s {
            promises = abort_all (drop (at + m) s.logs.items) s.promises;
            logs = resize (at + m) s.logs;
          }))
    ]
