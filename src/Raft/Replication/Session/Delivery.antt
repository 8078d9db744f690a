-- ===== src/Raft/Replication/Session/Delivery.antt =====
-- What the delivery of a request keeps, of a leader and its follower of ohmyraft/OhMyRaft.H.
use oh_my_db.Prelude.{
  ℕ, inc, ◌+◌, ◌≡◌, sym, ap, ◌∙◌, subst, inl, inr, ◌⊎◌, ℤ, minus_one, true, false, some,
  some-eq-some, List, ◌∷◌, ◌++◌, length, take, drop, arith, ◌≤ℤ◌,
}
use oh_my_db.Consensus.{LogEntry, AppendEntriesParams, AppendEntriesRet}
use oh_my_db.Raft.{Replica}
use oh_my_db.Raft.Append.{append_entries, prev_matches}
use oh_my_db.Raft.Append.Outcome.{Work}
use oh_my_db.Raft.Append.Overlay.{overlay}
use oh_my_db.Raft.Append.Followed.{Answer, new_log}
use oh_my_db.Raft.Machine.Steady.{InStep, append_entries-InStep}
use oh_my_db.Raft.Replication.{dec_pos-low, answered, prefix-stripped, inc-dec_pos, pos-injective}
use oh_my_db.Raft.Replication.Logs.{
  Agree, Linked, piece, length-piece, with_piece, with_piece-Agree, with_piece-keeps,
  with_piece-Linked,
}
use oh_my_db.Raft.Replication.Session.{Request, Reply, Session, Among}
use oh_my_db.Raft.Replication.Session.Matched.{IsPiece, IsHonest, Sound}
use oh_my_db.Raft.Replication.Session.Preserved.{among_both}

-- What a delivery does to the follower's log.
abbrev pub Delivered :
    Request → ℕ → List LogEntry → List LogEntry → List LogEntry → AppendEntriesRet → Type 0
Delivered m k fs ls ts r =
    ((r.success ≡ false) × (ts ≡ fs)) ⊎ (Agree m.next fs ls × (ts ≡ with_piece m.next k fs ls))

pub Answer-Delivered :
    (m : Request) (f t : Replica) (r : AppendEntriesRet) (ls : List LogEntry) (saved : ℤ)
    (p : IsPiece m ls)
    → Linked saved f.logs.items ls
    → Answer m.args f t r
    → Delivered m p.k f.logs.items ls t.logs.items r
Answer-Delivered m f t r ls saved p link (inr (failed, refused)) =
    inl (failed, ap (λ (w : Work). w.logs.items) refused.kept)
Answer-Delivered m f t r ls saved p link (inl (ok, term, at, fol)) =
    let here : at ≡ m.next =
      pos-injective at m.next (sym fol.place ∙ ap inc p.prev ∙ inc-dec_pos m.next) in
    let log : t.logs.items
        ≡ take m.next f.logs.items ++ overlay (drop m.next f.logs.items) m.args.entries =
      subst (λ (k : ℕ). t.logs.items ≡ new_log k m.args f) here fol.log in
    inr (
      prefix-stripped m.next m.args.prev_log_term f.logs.items ls p.before
          (subst (λ i. prev_matches i m.args.prev_log_term f.logs.items ≡ some true) p.prev
            fol.matched)
          link.matching,
      log ∙ ap (λ es. take m.next f.logs.items ++ overlay (drop m.next f.logs.items) es) p.entries,
    )

InStep-run :
    (now : ℕ) (args : AppendEntriesParams) (s t : Replica) (r : AppendEntriesRet)
    → minus_one ≤ℤ args.prev_log_index
    → InStep s
    → append_entries now args s ≡ some (t, r)
    → InStep t
InStep-run now args s t r sound h run =
    let (t', r', run', kept) = append_entries-InStep now args s sound h in
    let e : ◌≡◌ {A = Replica × AppendEntriesRet} (t', r') (t, r) = some-eq-some (sym run' ∙ run) in
    subst (λ (p : Replica × AppendEntriesRet). InStep p.0) e kept

module _ (peer saved : ℤ) (s : Session) (h : Sound peer saved s) (t : Replica) where
  refused-Sound :
      (r : Reply)
      → r.ret.success ≡ false
      → t.logs.items ≡ s.f.logs.items
      → InStep t
      → Sound peer saved (record s { f = t; replies = r ∷ s.replies })
  refused-Sound r failed same steady = record {
    link = rw same h.link;
    steady = steady;
    pieces = h.pieces;
    honest =
        among_both (λ q. IsHonest q t.logs.items s.l.logs.items) r s.replies
          (λ ok. absurd (cc (failed, ok))) (rw same h.honest);
    filed = rw same h.filed;
  }

  followed-Sound :
      (r : Reply) (m : Request) (p : IsPiece m s.l.logs.items)
      → r.next + r.count ≡ p.k
      → Agree m.next s.f.logs.items s.l.logs.items
      → t.logs.items ≡ with_piece m.next p.k s.f.logs.items s.l.logs.items
      → InStep t
      → Sound peer saved (record s { f = t; replies = r ∷ s.replies })
  followed-Sound r m p end before log steady =
      let fs = s.f.logs.items in
      let ls = s.l.logs.items in
      let kept : (j : ℕ) → Agree j fs ls → Agree j t.logs.items ls =
        λ j a. rw log (with_piece-keeps saved m.next p.k fs ls p.order p.held before h.link j a) in
      record {
        link = rw log (with_piece-Linked saved m.next p.k fs ls p.order p.held before h.link);
        steady = steady;
        pieces = h.pieces;
        honest =
            among_both (λ q. IsHonest q t.logs.items ls) r s.replies
              (λ ok. (
                omega (arith, p.held),
                rw (end, log)
                    (with_piece-Agree saved m.next p.k fs ls p.order p.held before h.link),
              ))
              (λ q a ok.
                let (held, agree) = h.honest q a ok in (held, kept (q.next + q.count) agree));
        filed = λ i e.
            let old = h.filed i e in
            record { k = old.k; index = old.index; held = old.held; agree = kept old.k old.agree };
      }

module _ (peer saved : ℤ) (s : Session) (h : Sound peer saved s) where
  pub Sound-deliver :
      (now : ℕ) (m : Request) (t : Replica) (r : AppendEntriesRet)
      → Among m s.requests
      → append_entries now m.args s.f ≡ some (t, r)
      → Sound peer saved (record s {
        f = t;
        replies = record { next = m.next; count = length m.args.entries; ret = r } ∷ s.replies;
      })
  Sound-deliver now m t r a run =
      let p = h.pieces m a in
      let reply : Reply = record { next = m.next; count = length m.args.entries; ret = r } in
      let sound : minus_one ≤ℤ m.args.prev_log_index =
        subst (λ i. minus_one ≤ℤ i) (sym p.prev) (dec_pos-low m.next) in
      let low : minus_one ≤ℤ s.f.last_applied =
        subst (λ (i : ℤ). minus_one ≤ℤ i) (sym h.steady.applied) h.steady.low in
      let steady = InStep-run now m.args s.f t r sound h.steady run in
      let end : length (piece m.next p.k s.l.logs.items) ≡ length m.args.entries
          → Agree m.next s.f.logs.items s.l.logs.items
          → m.next + length m.args.entries ≡ p.k =
        λ e b. omega (
          arith,
          p.order,
          length-piece saved m.next p.k s.f.logs.items s.l.logs.items p.order p.held b h.link,
        ) in
      elim (Answer-Delivered m s.f t r s.l.logs.items saved p h.link
        (answered now m.args s.f t r low sound run)) [
          | inl (failed, same) ↦ refused-Sound peer saved s h t reply failed same steady
          | inr (before, log) ↦
              followed-Sound peer saved s h t reply m p (end (ap length (sym p.entries)) before)
                before log steady
        ]
