-- ===== src/Raft/Machine/Steady.antt =====
-- What a replica of ohmyraft/OhMyRaft.H has committed and queued, over `AppendEntries` and the reply to it.
use oh_my_db.Prelude.{
  ℕ, zero, suc, ◌≤◌, ◌≡◌, refl, sym, ap, ◌∙◌, inl, inr, ℤ, pos, negsuc, minus_one, true, false,
  ◌&&◌, some, List, [], ◌∷◌, length, get_elem?, insert, dec, plus, min_ℤ, last_index, ltb_ℤ, ◌==ℤ◌,
  ◌≤ℤ◌, pos_part, neg_part, arith, Bool-cases, subst, ==ℤ_iff,
}
use oh_my_db.Consensus.{LogEntry, AppendEntriesParams, AppendEntriesRet}
use oh_my_db.Raft.{Replica}
use oh_my_db.Raft.Roles.{become_follower}
use oh_my_db.Raft.Append.{queue_committed, append_entries}
use oh_my_db.Raft.Append.Followed.{Followed, new_log, append_entries-Answer}
use oh_my_db.Raft.Append.Outcome.{Work}
use oh_my_db.Raft.Append.Commit.{upto, advanced, committed_ops-between}
use oh_my_db.Raft.Leader.{is_leader, commit_and_queue, count_success, handle_append_reply}
use oh_my_db.Raft.Leader.Commit.{CommitChoice, leader_commit-choice}
use oh_my_db.Raft.Machine.{run}
use oh_my_db.Raft.Machine.Indices.{indices}

-- What is committed is queued, and the index is -1 or more.
pub record InStep (s : Replica) : Type 0 where
  pub applied : s.last_applied ≡ s.commit_index
  pub low : minus_one ≤ℤ s.commit_index

pub kept-InStep : (s t : Replica) → indices t ≡ indices s → InStep s → InStep t
kept-InStep s t e h = record {
  applied = ap (λ (p : ℤ × ℤ). p.1) e ∙ h.applied ∙ sym (ap (λ (p : ℤ × ℤ). p.0) e);
  low = subst (λ (i : ℤ). minus_one ≤ℤ i) (sym (ap (λ (p : ℤ × ℤ). p.0) e)) h.low;
}

-- The commit index of a follower moves on, but never below -1.
min-low :
    (c l : ℤ) (n : ℕ) → minus_one ≤ℤ c → ltb_ℤ c l ≡ true → minus_one ≤ℤ min_ℤ l (last_index n)
unfolding min_ℤ dec pos_part neg_part
min-low c (pos l) zero h k = ground arith
min-low c (pos l) (suc n) h k = ground arith
min-low c (negsuc l) zero h k = ground arith
min-low c (negsuc l) (suc n) h k = ground arith

Followed-InStep :
    (args : AppendEntriesParams) (s t : Replica) (at : ℕ)
    → Followed args s at t
    → InStep s
    → InStep t
Followed-InStep args s t at f h = elim (Bool-cases (ltb_ℤ s.commit_index args.leader_commit)) [
  | inl e ↦
      let c : t.commit_index ≡ min_ℤ args.leader_commit (last_index (length (new_log at args s))) =
        rw e at f.commit in
      let a : t.last_applied ≡ min_ℤ args.leader_commit (last_index (length (new_log at args s))) =
        rw e at f.applied in
      record {
        applied = a ∙ sym c;
        low =
            subst (λ (i : ℤ). minus_one ≤ℤ i) (sym c)
              (min-low s.commit_index args.leader_commit (length (new_log at args s)) h.low e);
      }
  | inr e ↦
      let c : t.commit_index ≡ s.commit_index = rw e at f.commit in
      let a : t.last_applied ≡ s.last_applied = rw e at f.applied in
      record {
        applied = a ∙ h.applied ∙ sym c;
        low = subst (λ (i : ℤ). minus_one ≤ℤ i) (sym c) h.low;
      }
]

pub append_entries-InStep :
    (now : ℕ) (args : AppendEntriesParams) (s : Replica)
    → minus_one ≤ℤ args.prev_log_index
    → InStep s
    → (t : Replica) × (r : AppendEntriesRet) × (append_entries now args s ≡ some (t, r)) × InStep t
append_entries-InStep now args s sound h =
    let low : minus_one ≤ℤ s.last_applied =
      subst (λ (i : ℤ). minus_one ≤ℤ i) (sym h.applied) h.low in
    let (t, r, run, answer) = append_entries-Answer now args s low sound in
    (
      t,
      r,
      run,
      elim answer [
        | inr (failed, refused) ↦
            kept-InStep s t (ap (λ (w : Work). (w.commit_index, w.last_applied)) refused.kept) h
        | inl (ok, term, at, f) ↦ Followed-InStep args s t at f h
      ],
    )

get_elem?-lt :
    (l : List LogEntry) (j : ℕ) (e : LogEntry) → get_elem? l j ≡ some e → suc j ≤ length l
get_elem?-lt [] j e h = absurd (ground (arith, h))
get_elem?-lt (x ∷ l) zero e h = omega arith
get_elem?-lt (x ∷ l) (suc j) e h = omega (arith, get_elem?-lt l j e h)

moved-inside :
    (s : Replica) (c : ℤ)
    → CommitChoice s c
    → (c ==ℤ s.commit_index) ≡ false
    → (minus_one ≤ℤ c) × (upto c ≤ length s.logs.items)
unfolding pos_part neg_part
moved-inside s c choice e = elim choice.sound [
  | inl same ↦ absurd (ground (arith, ==ℤ_iff c s.commit_index, same))
  | inr (later, j, x, place, here, committable) ↦
      rw place (ground arith, get_elem?-lt s.logs.items j x here)
]

-- The leader's choice is never the cause of a read out of bounds.
commit_and_queue-InStep :
    (s : Replica) → InStep s → (t : Replica) × (commit_and_queue s ≡ some t) × InStep t
unfolding commit_and_queue queue_committed
commit_and_queue-InStep s h =
    let (c, chosen, choice) = leader_commit-choice s h.low in
    elim (Bool-cases (c ==ℤ s.commit_index)) [
      | inl e ↦ (s, rw (chosen, e) refl, h)
      | inr e ↦
          let (low, inside) = moved-inside s c choice e in
          let sound : minus_one ≤ℤ s.last_applied =
            subst (λ (i : ℤ). minus_one ≤ℤ i) (sym h.applied) h.low in
          (
            advanced c s,
            rw (chosen, e, committed_ops-between s.last_applied c s.logs.items sound inside) refl,
            record { applied = refl; low = low },
          )
    ]

pub handle_append_reply-InStep :
    (now : ℕ) (peer saved next : ℤ) (count : ℕ) (reply : AppendEntriesRet) (s : Replica)
    → InStep s
    → (t : Replica) × (handle_append_reply now peer saved next count reply s ≡ some t) × InStep t
unfolding handle_append_reply count_success become_follower
handle_append_reply-InStep now peer saved next count reply s h =
    elim (Bool-cases (ltb_ℤ saved reply.term)) [
      | inl e ↦
          (become_follower now reply.term s, rw e refl, record { applied = h.applied; low = h.low })
      | inr e ↦ elim (Bool-cases (is_leader s.role && (saved ==ℤ reply.term))) [
        | inr k ↦ (s, rw (e, k) refl, h)
        | inl k ↦ elim (Bool-cases reply.success) [
          | inr m ↦ (
            record s { next_index = insert peer (dec next) s.next_index },
            rw (e, k, m) refl,
            record { applied = h.applied; low = h.low },
          )
          | inl m ↦
              let (t, run, safe) =
                commit_and_queue-InStep
                  (record s {
                    next_index = insert peer (plus next count) s.next_index;
                    match_index = insert peer (dec (plus next count)) s.match_index;
                  })
                  (record { applied = h.applied; low = h.low }) in
              (t, rw (e, k, m) run, safe)
        ]
      ]
    ]
