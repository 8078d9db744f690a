-- ===== src/Raft/Append/Entries.antt =====
-- What `AppendEntries` of ohmyraft/OhMyRaft.H does to the log.
use oh_my_db.Prelude.{
  ℕ, ◌+◌, ◌≡◌, refl, sym, ◌∙◌, inl, inr, List, [], ◌∷◌, ◌++◌, map, append-nil, append_assoc, length,
  take, drop, ◌==ℤ◌, ltb, leb, ◌==◌, Bool-cases, if◌then◌else◌,
}
use oh_my_db.Consensus.{
  OpKind, get, put, add_server, remove_server, unknown, LogEntry, AppendLogEntry,
}
use oh_my_db.Persist.Log.{LogVector, push_back, resize, persist as persist_log}
use oh_my_db.Raft.{Replica}
use oh_my_db.Raft.Roles.{apply_add_server, apply_remove_server}
use oh_my_db.Raft.Append.{
  match_count, apply_config, push_entry, push_entries, replace_tail, accept_entries,
}

abbrev pub to_entry : AppendLogEntry → LogEntry
to_entry e = record { term = e.term; op = e.op }

-- The log after entries that come in at place `at`, as a function of the log alone.
unfoldable pub merge_log : ℕ → List AppendLogEntry → List LogEntry → List LogEntry
merge_log at entries logs =
    let matched = match_count (drop at logs) entries in
    if ltb matched (length entries)
    then take (at + matched) logs ++ map to_entry (drop matched entries)
    else logs

pub logs-apply_config : (k : OpKind) (s : Replica) → (apply_config k s).logs ≡ s.logs
unfolding apply_config apply_add_server apply_remove_server
logs-apply_config (get _) s = refl
logs-apply_config (put _ _) s = refl
logs-apply_config (add_server info) s = elim (Bool-cases (s.id ==ℤ info.id)) [
  | inl h ↦ rw h
  | inr h ↦ rw h
]
logs-apply_config (remove_server k) s = elim (Bool-cases (s.id ==ℤ k)) [
  | inl h ↦ rw h
  | inr h ↦ rw h
]
logs-apply_config (unknown _ _) s = refl

push_entries-items :
    (es : List AppendLogEntry) (s : Replica)
    → (push_entries es s).logs.items ≡ s.logs.items ++ map to_entry es
unfolding push_entries push_entry push_back
push_entries-items [] s = sym (append-nil s.logs.items)
push_entries-items (e ∷ es) s =
    push_entries-items es (push_entry e s)
    ∙ (rw (logs-apply_config e.op.kind (record s { logs = push_back (to_entry e) s.logs }))
        (append_assoc s.logs.items (to_entry e ∷ []) (map to_entry es)))

pub items-persist :
    (f : LogEntry → LogEntry) (v : LogVector LogEntry) → (persist_log f v).items ≡ v.items
unfolding persist_log
items-persist f v = elim (Bool-cases (length v.items == v.persisted_items)) [
  | inl h ↦ rw h
  | inr h ↦ rw h
]

items-resize : (n : ℕ) (v : LogVector LogEntry) → (resize n v).items ≡ take n v.items
unfolding resize
items-resize n v = elim (Bool-cases (leb n v.persisted_items)) [ inl h ↦ rw h | inr h ↦ rw h ]

items-replace_tail :
    (at : ℕ) (fresh : List AppendLogEntry) (s : Replica)
    → (replace_tail at fresh s).logs.items ≡ take at s.logs.items ++ map to_entry fresh
unfolding replace_tail
items-replace_tail at fresh s = rw items-persist (rw push_entries-items (rw items-resize))

-- The log after `accept_entries` is the merged log.
pub items-accept_entries :
    (at : ℕ) (entries : List AppendLogEntry) (s : Replica)
    → (accept_entries at entries s).logs.items ≡ merge_log at entries s.logs.items
unfolding accept_entries merge_log
items-accept_entries at entries s =
    elim (Bool-cases (ltb (match_count (drop at s.logs.items) entries) (length entries))) [
      | inl h ↦ rw h (items-replace_tail (at + match_count (drop at s.logs.items) entries) _ s)
      | inr h ↦ rw h
    ]
