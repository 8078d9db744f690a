-- ===== src/Raft/Replication/Network/Prefix.antt =====
-- What the followers of a leader of ohmyraft/OhMyRaft.H have committed, against the leader's log.
use oh_my_db.Prelude.{
  ℕ, ◌+◌, ◌≤◌, ◌≡◌, refl, sym, ap, ◌∙◌, inl, inr, ℤ, pos, some, List, [], ◌++◌, append-nil, map,
  length, length-append, arith,
}
use oh_my_db.Consensus.{LogEntry, leader, AppendEntriesRet}
use oh_my_db.Raft.{Replica}
use oh_my_db.Raft.Append.Commit.{upto}
use oh_my_db.Raft.Leader.{handle_append_reply}
use oh_my_db.Raft.Leader.Commit.{CommitChoice}
use oh_my_db.Raft.Machine.Indices.{raft_round-indices, submit-indices}
use oh_my_db.Raft.Replication.Logs.{Agree, Agree-grows, get_elem?-lt}
use oh_my_db.Raft.Replication.Network.Majority.{leader_commit-CommitChoice}
use oh_my_db.Raft.Replication.Network.Moved.{counted, handle_append_reply-moves}
use oh_my_db.Raft.Replication.Session.{
  Request, Session, Among, Step, submitted, logged, requested, delivered, answered,
}
use oh_my_db.Raft.Replication.Session.Kept.{handle_append_reply-kept}
use oh_my_db.Raft.Replication.Session.Preserved.{logs-submit}
use oh_my_db.Raft.Threads.{raft_round, submit}
use oh_my_db.Raft.Threads.Rounds.{entry_in, raft_round-logs_inputs}

-- What is committed is in the leader's log, and the follower has the same.
pub record Prefix (s : Session) : Type 0 where
  pub leads : upto s.l.commit_index ≤ length s.l.logs.items
  pub sent :
      (m : Request)
      → Among m s.requests
      → upto m.args.leader_commit ≤ m.next + length m.args.entries
  pub held : upto s.f.commit_index ≤ length s.l.logs.items
  pub agree : Agree (upto s.f.commit_index) s.f.logs.items s.l.logs.items

-- What a step does to the leader: its log grows, and its commit index stays inside.
pub record Grows (l t : Replica) : Type 0 where
  pub new : List LogEntry
  pub log : t.logs.items ≡ l.logs.items ++ new
  pub inside : upto l.commit_index ≤ length l.logs.items → upto t.commit_index ≤ length t.logs.items

pub Prefix-Grows :
    (s : Session) (t : Replica) → Grows s.l t → Prefix s → Prefix (record s { l = t })
Prefix-Grows s t g h = record {
  leads = g.inside h.leads;
  sent = h.sent;
  held = rw g.log (omega (arith, h.held, length-append s.l.logs.items g.new));
  agree =
      rw g.log
        (Agree-grows (upto s.f.commit_index) s.f.logs.items s.l.logs.items g.new h.held h.agree);
}

-- The log stays, and the commit index as well.
stays-Grows : (l t : Replica) → t.logs ≡ l.logs → t.commit_index ≡ l.commit_index → Grows l t
stays-Grows l t log index = record {
  new = [];
  log = ap (λ v. v.items) log ∙ sym (append-nil l.logs.items);
  inside = λ h. rw (index, log) h;
}

round-Grows : (l : Replica) → Grows l (raft_round leader l)
round-Grows l =
    let log = (raft_round-logs_inputs l).0 in
    let index : (raft_round leader l).commit_index ≡ l.commit_index =
      ap (λ (p : ℤ × ℤ). p.0) (raft_round-indices leader l) in
    record {
      new = map (entry_in l.current_term) l.dispatch_out;
      log = log;
      inside = λ h.
          rw (index, log)
            (omega (
              arith,
              h,
              length-append l.logs.items (map (entry_in l.current_term) l.dispatch_out),
            ));
    }

choice-inside :
    (s : Replica) (c : ℤ)
    → CommitChoice s c
    → upto s.commit_index ≤ length s.logs.items
    → upto c ≤ length s.logs.items
choice-inside s c choice h = elim choice.sound [
  | inl same ↦ rw same h
  | inr (ahead, j, e, index, here, fit) ↦
      rw index (omega (arith, get_elem?-lt s.logs.items j e here))
]

reply-Grows :
    (now : ℕ) (peer saved next : ℤ) (count : ℕ) (reply : AppendEntriesRet) (s t : Replica)
    → handle_append_reply now peer saved next count reply s ≡ some t
    → Grows s t
reply-Grows now peer saved next count reply s t run =
    let (log, peers, filed) = handle_append_reply-kept now peer saved next count reply s t run in
    elim (handle_append_reply-moves now peer saved next count reply s t run) [
      | inl index ↦ stays-Grows s t log index
      | inr (ok, chosen, same) ↦
          let u = counted peer next count s in
          record {
            new = [];
            log = ap (λ v. v.items) log ∙ sym (append-nil s.logs.items);
            inside = λ h. rw log (
                choice-inside u t.commit_index (leader_commit-CommitChoice u t.commit_index chosen)
                  h);
          }
    ]

pub Step-Grows : (p saved : ℤ) (s t : Session) → Step p saved s t → Grows s.l t.l
Step-Grows p saved _ _ (submitted s op) =
    stays-Grows s.l (submit op s.l).0 (logs-submit op s.l).0
      (ap (λ (x : ℤ × ℤ). x.0) (submit-indices op s.l))
Step-Grows p saved _ _ (logged s leads term plain) = round-Grows s.l
Step-Grows p saved _ _ (requested s n args next sent) = stays-Grows s.l s.l refl refl
Step-Grows p saved _ _ (delivered s now m t r a run plain) = stays-Grows s.l s.l refl refl
Step-Grows p saved _ _ (answered s now r t a run) =
    reply-Grows now p saved (pos r.next) r.count r.ret s.l t run
