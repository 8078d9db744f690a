-- ===== src/Raft/Replication/Network/Filed.antt =====
-- The leader of ohmyraft/OhMyRaft.H has a match index for each of its peers.
use oh_my_db.Prelude.{
  ℕ, ◌≡◌, inl, inr, ℤ, pos, minus_one, contains, contains-insert, contains-erase, insert, erase,
  true, Map, List, [], ◌∷◌, dec, plus, some, ◌==ℤ◌, arith, Bool-cases,
}
use oh_my_db.Consensus.{
  OpKind, get, put, add_server, remove_server, unknown, Operation, leader, AppendEntriesRet,
}
use oh_my_db.Persist.Log.{push_back}
use oh_my_db.Raft.{Replica, Router}
use oh_my_db.Raft.Roles.{apply_add_server, apply_remove_server, add_peer, remove_peer, persist}
use oh_my_db.Raft.Append.{apply_config}
use oh_my_db.Raft.Leader.{append_inputs, begin_iter, is_leader, handle_append_reply}
use oh_my_db.Raft.Replication.Network.{Network, session, NetworkSteps, nothing, and_then}
use oh_my_db.Raft.Replication.Session.{
  Session, Step, submitted, logged, requested, delivered, answered,
}
use oh_my_db.Raft.Replication.Session.Kept.{handle_append_reply-kept}
use oh_my_db.Raft.Replication.Session.Preserved.{logs-submit}
use oh_my_db.Raft.Threads.{raft_round, take_inputs, submit}

abbrev Covers : Map ℤ → Map Router → Type 0
Covers matches peers = (p : ℤ) → contains p peers ≡ true → contains p matches ≡ true

abbrev pub Filed : Replica → Type 0
Filed s = Covers s.match_index s.peers

Covers-insert :
    (k i : ℤ) (r : Router) (matches : Map ℤ) (peers : Map Router)
    → Covers matches peers
    → Covers (insert k i matches) (insert k r peers)
Covers-insert k i r matches peers h p e =
    ground (arith, contains-insert k p r peers, contains-insert k p i matches, h p)

Covers-insert_match :
    (k i : ℤ) (matches : Map ℤ) (peers : Map Router)
    → Covers matches peers
    → Covers (insert k i matches) peers
Covers-insert_match k i matches peers h p e = ground (arith, contains-insert k p i matches, h p e)

Covers-erase :
    (k : ℤ) (matches : Map ℤ) (peers : Map Router)
    → Covers matches peers
    → Covers (erase k matches) (erase k peers)
Covers-erase k matches peers h p e =
    ground (arith, contains-erase k p peers, contains-erase k p matches, h p)

Filed-apply_config : (k : OpKind) (s : Replica) → Filed s → Filed (apply_config k s)
unfolding apply_config apply_add_server apply_remove_server add_peer remove_peer persist
Filed-apply_config (get _) s h = h
Filed-apply_config (put _ _) s h = h
Filed-apply_config (add_server info) s h = elim (Bool-cases (s.id ==ℤ info.id)) [
  | inl e ↦ rw e h
  | inr e ↦ rw e (Covers-insert info.id minus_one _ s.match_index s.peers h)
]
Filed-apply_config (remove_server k) s h = elim (Bool-cases (s.id ==ℤ k)) [
  | inl e ↦ rw e h
  | inr e ↦ rw e (Covers-erase k s.match_index s.peers h)
]
Filed-apply_config (unknown _ _) s h = h

Filed-append_inputs : (ops : List Operation) (s : Replica) → Filed s → Filed (append_inputs ops s)
unfolding append_inputs
Filed-append_inputs [] s h = h
Filed-append_inputs (op ∷ ops) s h =
    let t = record s { logs = push_back (record { term = s.current_term; op = op }) s.logs } in
    Filed-append_inputs ops (apply_config op.kind t) (Filed-apply_config op.kind t h)

Filed-raft_round : (s : Replica) → Filed s → Filed (raft_round leader s)
unfolding raft_round begin_iter take_inputs is_leader
Filed-raft_round s h = Filed-append_inputs s.dispatch_out (take_inputs s) h

pub Filed-same :
    (s t : Replica) → t.peers ≡ s.peers → t.match_index ≡ s.match_index → Filed s → Filed t
Filed-same s t peers matches h = rw (peers, matches) h

pub Filed-handle_append_reply :
    (now : ℕ) (peer saved next : ℤ) (count : ℕ) (reply : AppendEntriesRet) (s t : Replica)
    → handle_append_reply now peer saved next count reply s ≡ some t
    → Filed s
    → Filed t
Filed-handle_append_reply now peer saved next count reply s t run h =
    let (log, peers, filed) = handle_append_reply-kept now peer saved next count reply s t run in
    elim filed [
      | inl old ↦ Filed-same s t peers old h
      | inr (ok, new) ↦
          rw (peers, new) (Covers-insert_match peer (dec (plus next count)) s.match_index s.peers h)
    ]

Filed-Step : (p saved : ℤ) (s t : Session) → Step p saved s t → Filed s.l → Filed t.l
Filed-Step p saved _ _ (submitted s op) h =
    let (log, peers, filed) = logs-submit op s.l in Filed-same s.l (submit op s.l).0 peers filed h
Filed-Step p saved _ _ (logged s leads term plain) h = Filed-raft_round s.l h
Filed-Step p saved _ _ (requested s n args next sent) h = h
Filed-Step p saved _ _ (delivered s now m t r a run plain) h = h
Filed-Step p saved _ _ (answered s now r t a run) h =
    Filed-handle_append_reply now p saved (pos r.next) r.count r.ret s.l t run h

pub Filed-NetworkSteps :
    (saved : ℤ) (n m : Network) → NetworkSteps saved n m → Filed n.l → Filed m.l
Filed-NetworkSteps saved n _ nothing h = h
Filed-NetworkSteps saved n _ (and_then {m} steps p s step) h =
    Filed-Step p saved (session p m) s step (Filed-NetworkSteps saved n m steps h)
