-- ===== src/Raft/Threads/Rounds.antt =====
-- What becomes of submitted operations in a round of `raftImpl` of ohmyraft/OhMyRaft.H.
use oh_my_db.Prelude.{
  ◌≡◌, refl, sym, ap, ◌∙◌, inl, inr, ℤ, true, false, ◌&&◌, not, List, [], ◌∷◌, ◌++◌, map,
  append-nil, append_assoc, Bool-cases,
}
use oh_my_db.Consensus.{RaftRole, Operation, LogEntry, leader}
use oh_my_db.Signal.{signal}
use oh_my_db.Persist.Log.{push_back}
use oh_my_db.Raft.{Replica}
use oh_my_db.Raft.Append.{strip, apply_config}
use oh_my_db.Raft.Append.Entries.{logs-apply_config, items-persist}
use oh_my_db.Raft.Append.Kept.{Core, core-apply_config}
use oh_my_db.Raft.Leader.{append_inputs, begin_iter, is_leader}
use oh_my_db.Raft.Threads.{submit, take_inputs, raft_round, needs_leader}

-- The log entry of an operation in a term.
abbrev pub entry_in : ℤ → Operation → LogEntry
entry_in term op = record { term = term; op = op }

items-append_inputs :
    (ops : List Operation) (s : Replica)
    → (append_inputs ops s).logs.items ≡ s.logs.items ++ map (entry_in s.current_term) ops
unfolding append_inputs push_back
items-append_inputs [] s = sym (append-nil s.logs.items)
items-append_inputs (op ∷ ops) s =
    let t = record s { logs = push_back (entry_in s.current_term op) s.logs } in
    let term : (apply_config op.kind t).current_term ≡ s.current_term =
      ap (λ (c : Core). c.current_term) (core-apply_config op.kind t) in
    items-append_inputs ops (apply_config op.kind t)
    ∙ (rw (logs-apply_config op.kind t, term)
        (append_assoc s.logs.items (entry_in s.current_term op ∷ [])
          (map (entry_in s.current_term) ops)))

leads : (s : Replica) → s.role ≡ leader → is_leader s.role ≡ true
unfolding is_leader
leads s h = rw h refl

map-end :
    (f : Operation → LogEntry) (ops : List Operation) (op : Operation)
    → map f (ops ++ op ∷ []) ≡ map f ops ++ f op ∷ []
map-end f [] op = refl
map-end f (o ∷ ops) op = ap (λ l. f o ∷ l) (map-end f ops op)

submit-leader :
    (op : Operation) (s : Replica)
    → s.role ≡ leader
    → (needs_leader op.kind && not (is_leader s.role)) ≡ false
submit-leader op s h =
    rw (leads s h)
      (elim (Bool-cases (needs_leader op.kind)) [ inl k ↦ rw k refl | inr k ↦ rw k refl ])

-- A round that has read the role of a leader puts what was submitted before, in order and under the
-- term of the state, at the end of the log, and leaves no input behind, whatever role the state has
-- by then: a replica that lost the leadership in between appends under the term of the new leader.
pub raft_round-logs_inputs :
    (s : Replica)
    → ((raft_round leader s).logs.items
        ≡ s.logs.items ++ map (entry_in s.current_term) s.dispatch_out)
      × ((raft_round leader s).raft_in ≡ [])
unfolding raft_round begin_iter take_inputs is_leader
raft_round-logs_inputs s = (
  items-persist strip (append_inputs s.dispatch_out (take_inputs s)).logs
      ∙ items-append_inputs s.dispatch_out (take_inputs s),
  refl,
)

-- A round that has read another role throws away what was submitted: the inputs are gone from its lists,
-- the log is as before and no promise is served.
pub raft_round-drops :
    (role : RaftRole) (s : Replica)
    → is_leader role ≡ false
    → s.raft_in ≡ []
    → let t = raft_round role s in
      (t.dispatch_out ≡ []) × (t.raft_in ≡ []) × (t.logs ≡ s.logs) × (t.promises ≡ s.promises)
unfolding raft_round take_inputs
raft_round-drops role s h empty = rw h (empty, refl, refl, refl)

-- What `submit` accepts from a client, a leader's next round puts into the log, behind all that was
-- submitted before it.
pub submit-raft_round :
    (op : Operation) (s : Replica)
    → s.role ≡ leader
    → (raft_round leader (submit op s).0).logs.items
      ≡ (s.logs.items ++ map (entry_in s.current_term) s.dispatch_out)
        ++ entry_in s.current_term op ∷ []
unfolding submit
submit-raft_round op s h = rw (submit-leader op s h) (
    (raft_round-logs_inputs (record s {
      dispatch_out = s.dispatch_out ++ op ∷ [];
      more_inputs_ready = (signal s.more_inputs_ready).0;
    })).0
    ∙ rw (map-end (entry_in s.current_term) s.dispatch_out op) (
        sym (
          append_assoc s.logs.items (map (entry_in s.current_term) s.dispatch_out)
            (entry_in s.current_term op ∷ []))))
