-- ===== src/Raft/Replication/Repair/Ends.antt =====
-- The requests of the thread for a peer of ohmyraft/OhMyRaft.H bring the follower's log in line: each one
-- succeeds or moves the next index back.
use oh_my_db.Prelude.{
  ℕ, zero, suc, ◌+◌, ◌≤◌, ◌≡◌, refl, sym, ap, ◌∙◌, subst, inl, inr, ◌⊎◌, ℤ, pos, minus_one, true,
  false, some, length, length-drop, drop, dec, plus, insert, ◌≤ℤ◌, ◌<ℤ◌, arith, Bool-cases,
}
use oh_my_db.Raft.{Replica}
use oh_my_db.Raft.Append.{is_dead, prev_matches}
use oh_my_db.Raft.Append.Followed.{append_entries-Answer, prev_matches-defined}
use oh_my_db.Raft.Append.Outcome.{heard, ready}
use oh_my_db.Raft.Leader.{append_args, next_of}
use oh_my_db.Raft.Replication.{request, dec_pos-low, length-entries_from, append_entries-replicates}
use oh_my_db.Raft.Replication.Repair.{
  exchange, exchanges, CanRepair, Repaired, OneBack, append_args-built, append_entries-missing,
  handle_append_reply-refused, handle_append_reply-Informed, exchange-eq, ready-CanRepair,
  find_or-insert,
}

module _ (saved peer : ℤ) (now n : ℕ) (l f : Replica) (fit : CanRepair saved l f)
    (next : next_of peer l ≡ pos n) (held : n ≤ length l.logs.items) where
  refused-OneBack :
      (pt : ℤ)
      → append_args saved peer l ≡ some (request saved peer l n next pt)
      → prev_matches (dec (pos n)) pt f.logs.items ≡ some false
      → (m : ℕ) × (l' : Replica) × (f' : Replica) × (n ≡ suc m)
        × (exchange saved peer now (l, f) ≡ some (l', f'))
        × OneBack saved peer m l l' f'
  unfolding request dec prev_matches
  refused-OneBack pt built missing =
      let args = request saved peer l n next pt in
      let l' = record l { next_index = insert peer (dec (next_of peer l)) l.next_index } in
      let (m, place) = not_first n missing in
      let run = append_entries-missing now args f fit.alive fit.recent missing in
      (
        m,
        l',
        ready now args f,
        place,
        exchange-eq saved peer now l f l' (ready now args f) args
            (record { term = saved; success = false }) built run
            (handle_append_reply-refused now peer saved (next_of peer l) (length args.entries) l
              fit.leads),
        record {
          logs = refl;
          next =
              find_or-insert peer (pos 0) (dec (next_of peer l)) l.next_index
              ∙ ap dec (next ∙ ap pos place);
          fit =
              ready-CanRepair now args l l' f fit fit.leads
                (record { applied = fit.steady_leader.applied; low = fit.steady_leader.low }) refl;
        },
      )
    where
      not_first :
          (k : ℕ) → prev_matches (dec (pos k)) pt f.logs.items ≡ some false → (m : ℕ) × (k ≡ suc m)
      not_first zero h = absurd (ground (arith, h))
      not_first (suc m) h = (m, refl)

  accepted-Repaired :
      (pt : ℤ)
      → append_args saved peer l ≡ some (request saved peer l n next pt)
      → prev_matches (dec (pos n)) pt f.logs.items ≡ some true
      → (l' : Replica) × (f' : Replica) × (exchange saved peer now (l, f) ≡ some (l', f'))
        × Repaired peer l l' f'
  unfolding request plus
  accepted-Repaired pt built found =
      let args = request saved peer l n next pt in
      let low : minus_one ≤ℤ f.last_applied =
        subst (λ (i : ℤ). minus_one ≤ℤ i) (sym fit.steady.applied) fit.steady.low in
      let (t, r, run, answer) = append_entries-Answer now args f low (dec_pos-low n) in
      elim answer [
        | inr (failed, refused) ↦ absurd (not_refused refused.reason)
        | inl (ok, term, at, fol) ↦
            let reply : r ≡ record { term = saved; success = true } = cc (ok, term) in
            let (l', heard, informed) =
              handle_append_reply-Informed now peer saved (next_of peer l) (length args.entries) l
                fit.leads fit.steady_leader in
            let end : n + length args.entries ≡ length l.logs.items = omega (
              arith,
              held,
              length-entries_from n (drop n l.logs.items),
              length-drop n l.logs.items,
            ) in
            (
              l',
              t,
              exchange-eq saved peer now l f l' t args r built run (rw reply heard),
              record {
                logs = informed.logs;
                filed = informed.filed ∙ rw (next, end) refl;
                same =
                    append_entries-replicates now saved peer n l f t args r next held fit.matching
                      low built run ok;
              },
            )
      ]
    where
      not_refused :
          (is_dead f.role ≡ true)
            ⊎ ((saved <ℤ f.current_term)
                ⊎ (prev_matches (dec (pos n)) pt f.logs.items ≡ some false))
          → ⊥
      not_refused (inl gone) = cc (gone, fit.alive)
      not_refused (inr (inl stale)) = omega (arith, fit.recent)
      not_refused (inr (inr missing)) = ground (arith, found, missing)

  exchange-ends :
      ((l' : Replica) × (f' : Replica) × (exchange saved peer now (l, f) ≡ some (l', f'))
        × Repaired peer l l' f')
      ⊎ ((m : ℕ) × (l' : Replica) × (f' : Replica) × (n ≡ suc m)
          × (exchange saved peer now (l, f) ≡ some (l', f'))
          × OneBack saved peer m l l' f')
  exchange-ends =
      let (pt, before, built) = append_args-built saved peer l n next held in
      let (b, outcome) = prev_matches-defined (dec (pos n)) pt f.logs.items (dec_pos-low n) in
      elim (Bool-cases b) [
        | inl e ↦ inl (accepted-Repaired pt built (rw e at outcome))
        | inr e ↦ inr (refused-OneBack pt built (rw e at outcome))
      ]

moved :
    {peer : ℤ} (l l' l'' f : Replica)
    → l'.logs ≡ l.logs
    → Repaired peer l' l'' f
    → Repaired peer l l'' f
moved l l' l'' f e h = record { logs = h.logs ∙ e; filed = rw e at h.filed; same = rw e at h.same }

-- A leader repairs the log of a follower: from a next index `n` inside the leader's log, after at most
-- `n + 1` requests of the thread for the peer, each of which gets through and is answered before the next, the
-- leader has filed the end of its log for the peer, and the follower has the whole of the leader's log, up to
-- the promises. This is for a live follower of no later term, two replicas that are in step, and logs that match.
pub exchanges_repair :
    (saved peer : ℤ) (clock : ℕ → ℕ) (i n : ℕ) (l f : Replica)
    → CanRepair saved l f
    → next_of peer l ≡ pos n
    → n ≤ length l.logs.items
    → (k : ℕ) × (l' : Replica) × (f' : Replica) × (k ≤ n)
      × (exchanges saved peer clock i (suc k) (l, f) ≡ some (l', f'))
      × Repaired peer l l' f'
unfolding exchanges
exchanges_repair saved peer clock i zero l f fit next held =
    elim (exchange-ends saved peer (clock i) 0 l f fit next held) [
      | inl (l', f', run, done) ↦ (0, l', f', omega arith, rw run refl, done)
      | inr (m, l', f', place, run, back) ↦ absurd (omega arith)
    ]
exchanges_repair saved peer clock i (suc n) l f fit next held =
    elim (exchange-ends saved peer (clock i) (suc n) l f fit next held) [
      | inl (l', f', run, done) ↦ (0, l', f', omega arith, rw run refl, done)
      | inr (m, l', f', place, run, back) ↦
          let next' : next_of peer l' ≡ pos n = back.next ∙ ap pos (omega arith) in
          let (k, l'', f'', few, later, done) =
            exchanges_repair saved peer clock (suc i) n l' f' back.fit next'
              (rw back.logs (omega arith)) in
          (suc k, l'', f'', omega arith, rw run later, moved l l' l'' f'' back.logs done)
    ]
