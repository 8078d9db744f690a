-- ===== src/Raft/Replication/Network/Kept.antt =====
-- What the steps of one follower of ohmyraft/OhMyRaft.H mean for the others.
use oh_my_db.Prelude.{
  ℕ, ◌≡◌, refl, sym, ap, ◌∙◌, subst, inl, inr, ℤ, pos, find, find-insert, false, some, List, dec,
  plus, ◌==ℤ◌, ==ℤ_iff, Bool-cases,
}
use oh_my_db.Raft.{Replica}
use oh_my_db.Raft.Leader.{handle_append_reply}
use oh_my_db.Raft.Replication.Network.{
  Network, session, with_session, NetworkSteps, nothing, and_then,
}
use oh_my_db.Raft.Replication.Session.{
  Request, Reply, Session, Among, Step, submitted, logged, requested, delivered, answered,
}
use oh_my_db.Raft.Replication.Session.Kept.{handle_append_reply-kept}
use oh_my_db.Raft.Replication.Session.Matched.{Sound, Sound-files}
use oh_my_db.Raft.Replication.Session.Preserved.{Sound-reply, Sound-submit, Sound-round}
use oh_my_db.Raft.Replication.Session.Term.{Sound-Step}

-- The session of another follower with the leader `l`.
abbrev other : Replica → Replica → List Request → List Reply → Session
other l f requests replies = record { l = l; f = f; requests = requests; replies = replies }

other-Sound :
    (p q saved : ℤ) (s t : Session) (f : Replica) (requests : List Request) (replies : List Reply)
    → (p ==ℤ q) ≡ false
    → Sound q saved (other s.l f requests replies)
    → Step p saved s t
    → Sound q saved (other t.l f requests replies)
other-Sound p q saved _ _ f requests replies ne h (submitted s op) =
    Sound-submit q saved (other s.l f requests replies) h op
other-Sound p q saved _ _ f requests replies ne h (logged s leads term plain) =
    Sound-round q saved (other s.l f requests replies) h term
other-Sound p q saved _ _ f requests replies ne h (requested s n args next sent) = h
other-Sound p q saved _ _ f requests replies ne h (delivered s now m t r a run plain) = h
other-Sound p q saved _ _ f requests replies ne h (answered s now r t a run) =
    let (log, peers, filed) =
      handle_append_reply-kept now p saved (pos r.next) r.count r.ret s.l t run in
    Sound-files q saved (other s.l f requests replies) t log
      (λ i e. elim filed [
        | inl old ↦ h.filed i (ap (find q) (sym old) ∙ e)
        | inr (ok, new) ↦
            let same : find q t.match_index ≡ find q s.l.match_index =
              ap (find q) new
              ∙ find-insert p q (dec (plus (pos r.next) r.count)) s.l.match_index
              ∙ rw ne refl in
            h.filed i (sym same ∙ e)
      ])
      h

-- What holds of the session that became `s`, and of the others with the new leader, holds of all.
pub with_session-all :
    (P : ℤ → Session → Type 0) (p : ℤ) (s : Session) (n : Network)
    → P p s
    → ((q : ℤ) → (p ==ℤ q) ≡ false → P q (other s.l (n.f q) (n.requests q) (n.replies q)))
    → (q : ℤ) → P q (session q (with_session p s n))
with_session-all P p s n own others q = elim (Bool-cases (p ==ℤ q)) [
  | inl e ↦ rw e (subst (λ x. P x s) ((==ℤ_iff p q).0 e) own)
  | inr e ↦ rw e (others q e)
]

pub Sound-NetworkSteps :
    (saved : ℤ) (n m : Network)
    → ((q : ℤ) → Sound q saved (session q n))
    → NetworkSteps saved n m
    → (q : ℤ) → Sound q saved (session q m)
Sound-NetworkSteps saved n _ h nothing = h
Sound-NetworkSteps saved n _ h (and_then {m} steps p s step) =
    let all = Sound-NetworkSteps saved n m h steps in
    with_session-all (λ q. Sound q saved) p s m (Sound-Step p saved (session p m) s (all p) step)
      (λ q ne.
        other-Sound p q saved (session p m) s (m.f q) (m.requests q) (m.replies q) ne (all q) step)

-- The reply of one follower, for the session of each.
pub Sound-heard :
    (saved : ℤ) (n : Network) (now : ℕ) (p : ℤ) (r : Reply) (t : Replica)
    → ((q : ℤ) → Sound q saved (session q n))
    → Among r (n.replies p)
    → handle_append_reply now p saved (pos r.next) r.count r.ret n.l ≡ some t
    → (q : ℤ) → Sound q saved (record (session q n) { l = t })
Sound-heard saved n now p r t all a run q = elim (Bool-cases (p ==ℤ q)) [
  | inl e ↦
      subst (λ x. Sound x saved (record (session x n) { l = t })) ((==ℤ_iff p q).0 e)
        (Sound-reply p saved (session p n) (all p) now r t a run)
  | inr e ↦
      other-Sound p q saved (session p n) (record (session p n) { l = t }) (n.f q) (n.requests q)
        (n.replies q) e (all q) (answered (session p n) now r t a run)
]
