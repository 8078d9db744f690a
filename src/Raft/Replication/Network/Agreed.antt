-- ===== src/Raft/Replication/Network/Agreed.antt =====
-- The committed entries of the followers of ohmyraft/OhMyRaft.H, over a term of a leader.
use oh_my_db.Prelude.{
  ℕ, ◌+◌, ◌≤◌, ◌≡◌, sym, ap, ◌∙◌, subst, inl, inr, ◌⊎◌, ℤ, pos, minus_one, true, some, find, List,
  length, length-drop, drop, take, ltb_ℤ, min_ℤ, last_index, ◌≤ℤ◌, arith, Bool-cases,
}
use oh_my_db.Consensus.{AppendEntriesParams, AppendEntriesRet}
use oh_my_db.Raft.{Replica}
use oh_my_db.Raft.Append.{append_entries}
use oh_my_db.Raft.Append.Commit.{upto}
use oh_my_db.Raft.Append.Followed.{Answer, new_log}
use oh_my_db.Raft.Append.Outcome.{Work}
use oh_my_db.Raft.Leader.{append_args, next_of}
use oh_my_db.Raft.Machine.Steady.{InStep}
use oh_my_db.Raft.Replication.{
  stripped, request, append_args-request, length-entries_from, answered as answer_of, dec_pos-low,
}
use oh_my_db.Raft.Replication.Committed.{upto-min}
use oh_my_db.Raft.Replication.Logs.{
  Agree, Agree-less, Linked, length-piece, with_piece, with_piece-Agree, with_piece-keeps,
}
use oh_my_db.Raft.Replication.Network.{Network, session, NetworkSteps, nothing, and_then}
use oh_my_db.Raft.Replication.Network.Kept.{with_session-all, Sound-NetworkSteps}
use oh_my_db.Raft.Replication.Network.Moved.{network_start}
use oh_my_db.Raft.Replication.Network.Prefix.{Prefix, Prefix-Grows, Step-Grows}
use oh_my_db.Raft.Replication.Session.{
  Request, Reply, Session, Among, Step, submitted, logged, requested, delivered, answered,
}
use oh_my_db.Raft.Replication.Session.Matched.{Sound}
use oh_my_db.Raft.Replication.Session.Preserved.{among_both, term_before-fits}
use oh_my_db.Raft.Replication.Session.Delivery.{Answer-Delivered}
use oh_my_db.Raft.Replication.Session.Term.{start-Sound, none_among}

-- The commit index of a follower stays, or a success moves it inside what the leader has committed.
Answer-Moves :
    (args : AppendEntriesParams) (s t : Replica) (r : AppendEntriesRet)
    → Answer args s t r
    → (t.commit_index ≡ s.commit_index)
      ⊎ ((r.success ≡ true) × (upto t.commit_index ≤ upto args.leader_commit))
Answer-Moves args s t r (inr (failed, refused)) =
    inl (ap (λ (w : Work). w.commit_index) refused.kept)
Answer-Moves args s t r (inl (ok, term, at, fol)) =
    elim (Bool-cases (ltb_ℤ s.commit_index args.leader_commit)) [
      | inr e ↦ inl (rw e at fol.commit)
      | inl e ↦
          let c : t.commit_index
              ≡ min_ℤ args.leader_commit (last_index (length (new_log at args s))) =
            rw e at fol.commit in
          inr (
            ok,
            subst (λ i. upto i ≤ upto args.leader_commit) (sym c) (upto-min args.leader_commit _),
          )
    ]

request-sent :
    (saved peer : ℤ) (l : Replica) (n : ℕ) (next : next_of peer l ≡ pos n)
    (args : AppendEntriesParams)
    → append_args saved peer l ≡ some args
    → upto l.commit_index ≤ length l.logs.items
    → upto args.leader_commit ≤ n + length args.entries
unfolding request
request-sent saved peer l n next args sent h =
    let (pt, before, same) = append_args-request saved peer l n next args sent in
    rw same (
      omega (
        arith,
        h,
        term_before-fits n l.logs.items pt before,
        length-entries_from n (drop n l.logs.items),
        length-drop n l.logs.items,
      ))

module _ (peer saved : ℤ) (s : Session) (sound : Sound peer saved s) (h : Prefix s) where
  Prefix-deliver :
      (now : ℕ) (m : Request) (t : Replica) (r : AppendEntriesRet) (replies : List Reply)
      → Among m s.requests
      → append_entries now m.args s.f ≡ some (t, r)
      → Prefix (record s { f = t; replies = replies })
  Prefix-deliver now m t r replies a run =
      let fs = s.f.logs.items in
      let ls = s.l.logs.items in
      let p = sound.pieces m a in
      let low : minus_one ≤ℤ s.f.last_applied =
        subst (λ (i : ℤ). minus_one ≤ℤ i) (sym sound.steady.applied) sound.steady.low in
      let answer =
        answer_of now m.args s.f t r low
          (subst (λ i. minus_one ≤ℤ i) (sym p.prev) (dec_pos-low m.next)) run in
      let moves = Answer-Moves m.args s.f t r answer in
      elim (Answer-Delivered m s.f t r ls saved p sound.link answer) [
        | inl (failed, same) ↦ elim moves [
          | inl index ↦ settled t (rw index h.held) (rw (index, same) h.agree)
          | inr (ok, inside) ↦ absurd (cc (failed, ok))
        ]
        | inr (before, log) ↦
            let end : m.next + length m.args.entries ≡ p.k = omega (
              arith,
              p.order,
              ap length p.entries,
              length-piece saved m.next p.k fs ls p.order p.held before sound.link,
            ) in
            elim moves [
              | inl index ↦ settled t (rw index h.held) (
                  rw (index, log)
                    (with_piece-keeps saved m.next p.k fs ls p.order p.held before sound.link
                      (upto s.f.commit_index) h.agree))
              | inr (ok, inside) ↦ settled t (omega (arith, h.sent m a, p.held)) (
                  rw log (
                    Agree-less (upto t.commit_index) p.k (with_piece m.next p.k fs ls) ls
                      (omega (arith, h.sent m a))
                      (with_piece-Agree saved m.next p.k fs ls p.order p.held before sound.link)))
            ]
      ]
    where
      settled :
          (t : Replica)
          → upto t.commit_index ≤ length s.l.logs.items
          → Agree (upto t.commit_index) t.logs.items s.l.logs.items
          → Prefix (record s { f = t; replies = replies })
      settled t held agree = record { leads = h.leads; sent = h.sent; held = held; agree = agree }

Prefix-Step :
    (peer saved : ℤ) (s t : Session)
    → Sound peer saved s
    → Prefix s
    → Step peer saved s t
    → Prefix t
Prefix-Step peer saved _ _ sound h (submitted s op) =
    Prefix-Grows s _ (Step-Grows peer saved _ _ (submitted s op)) h
Prefix-Step peer saved _ _ sound h (logged s leads term plain) =
    Prefix-Grows s _ (Step-Grows peer saved _ _ (logged s leads term plain)) h
Prefix-Step peer saved _ _ sound h (requested s n args next sent) = record {
  leads = h.leads;
  sent =
      among_both (λ m. upto m.args.leader_commit ≤ m.next + length m.args.entries) _ s.requests
        (request-sent saved peer s.l n next args sent h.leads) h.sent;
  held = h.held;
  agree = h.agree;
}
Prefix-Step peer saved _ _ sound h (delivered s now m t r a run plain) =
    Prefix-deliver peer saved s sound h now m t r _ a run
Prefix-Step peer saved _ _ sound h (answered s now r t a run) =
    Prefix-Grows s t (Step-Grows peer saved _ _ (answered s now r t a run)) h

Prefix-NetworkSteps :
    (saved : ℤ) (n m : Network)
    → ((q : ℤ) → Sound q saved (session q n))
    → ((q : ℤ) → Prefix (session q n))
    → NetworkSteps saved n m
    → (q : ℤ) → Prefix (session q m)
Prefix-NetworkSteps saved n _ sound h nothing = h
Prefix-NetworkSteps saved n _ sound h (and_then {m} steps p s step) =
    let all = Prefix-NetworkSteps saved n m sound h steps in
    let known = Sound-NetworkSteps saved n m sound steps in
    with_session-all (λ q. Prefix) p s m
      (Prefix-Step p saved (session p m) s (known p) (all p) step)
      (λ q ne. Prefix-Grows (session q m) s.l (Step-Grows p saved (session p m) s step) (all q))

-- Whatever happens in a term of a leader and its followers, all that a follower has committed is
-- the beginning of the leader's log, up to the promises; of two followers the one that has
-- committed more has the same as the other as far as that one has committed; and the leader's own
-- commit index stays inside its log. The requests and replies may be lost, doubled and delivered in
-- any order, no other server sends anything, and each round of the leader runs in its role and
-- term. This is where it is so at the start of the term, for a term in which no operation changes
-- the configuration, for followers whose logs match the leader's there, that have no entry of the
-- term past it and are in step, and for a leader that has filed no match index but -1.
pub followers_hold_prefix :
    (saved : ℤ) (l : Replica) (f : ℤ → Replica) (n : Network)
    → ((p : ℤ) → Linked saved (f p).logs.items l.logs.items)
    → ((p : ℤ) → InStep (f p))
    → ((p i : ℤ) → find p l.match_index ≡ some i → i ≡ minus_one)
    → upto l.commit_index ≤ length l.logs.items
    → ((p : ℤ)
        → (upto (f p).commit_index ≤ length l.logs.items)
          × Agree (upto (f p).commit_index) (f p).logs.items l.logs.items)
    → NetworkSteps saved (network_start l f) n
    → (upto n.l.commit_index ≤ length n.l.logs.items)
      × ((p : ℤ)
          → (upto (n.f p).commit_index ≤ length n.l.logs.items)
            × (stripped (take (upto (n.f p).commit_index) (n.f p).logs.items)
                ≡ stripped (take (upto (n.f p).commit_index) n.l.logs.items)))
      × ((p q : ℤ)
          → upto (n.f p).commit_index ≤ upto (n.f q).commit_index
          → stripped (take (upto (n.f p).commit_index) (n.f p).logs.items)
            ≡ stripped (take (upto (n.f p).commit_index) (n.f q).logs.items))
followers_hold_prefix saved l f n link steady fresh leads begin steps =
    let all =
      Prefix-NetworkSteps saved (network_start l f) n
        (λ q. start-Sound q saved l (f q) (link q) (steady q) (fresh q))
        (λ q. record {
          leads = leads;
          sent = none_among _;
          held = (begin q).0;
          agree = (begin q).1;
        })
        steps in
    (
      (all (pos 0)).leads,
      λ p. ((all p).held, (all p).agree),
      λ p q le.
          (all p).agree
          ∙ sym (
              Agree-less (upto (n.f p).commit_index) (upto (n.f q).commit_index) (n.f q).logs.items
                n.l.logs.items le (all q).agree),
    )
