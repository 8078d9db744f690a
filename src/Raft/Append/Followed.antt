-- ===== src/Raft/Append/Followed.antt =====
-- The result of `AppendEntries` of ohmyraft/OhMyRaft.H, as a whole.
use oh_my_db.Prelude.{
  ℕ, zero, suc, ◌≡◌, refl, sym, ap, ◌∙◌, inl, inr, ℤ, pos, negsuc, minus_one, Bool, true, false,
  some, List, [], ◌++◌, append-nil, length, take, drop, get_elem?, inc, inc-place, min_ℤ,
  last_index, ltb_ℤ, ◌==ℤ◌, ==ℤ_iff, eq_of_parts, ◌⊎◌, ◌≤ℤ◌, ◌<ℤ◌, pos_part, neg_part, arith,
  Bool-cases, Option-cases, if◌then◌else◌,
}
use oh_my_db.Consensus.{LogEntry, Operation, follower, AppendEntriesParams, AppendEntriesRet}
use oh_my_db.Raft.{Replica}
use oh_my_db.Raft.Append.{
  prev_matches, touch_timer, accept_entries, is_dead, take_entries, same_term, append_entries,
}
use oh_my_db.Raft.Append.Overlay.{overlay, items-accept_entries-overlay}
use oh_my_db.Raft.Append.Kept.{Core, core, core-accept_entries}
use oh_my_db.Raft.Append.Commit.{between, commit_after, advanced, follow_commit-eq}
use oh_my_db.Raft.Append.Outcome.{
  Work, work, heard, term-heard, ready, work-ready, work-heard, work-touch_timer, ready-follower,
  append_entries-dead, append_entries-stale, append_entries-current,
}

-- The log after the entries are taken in at place `at`.
abbrev pub new_log : ℕ → AppendEntriesParams → Replica → List LogEntry
new_log at args s = take at s.logs.items ++ overlay (drop at s.logs.items) args.entries

abbrev pub new_commit : ℕ → AppendEntriesParams → Replica → ℤ
new_commit at args s =
    if ltb_ℤ s.commit_index args.leader_commit
    then min_ℤ args.leader_commit (last_index (length (new_log at args s)))
    else s.commit_index

abbrev pub new_applied : ℕ → AppendEntriesParams → Replica → ℤ
new_applied at args s =
    if ltb_ℤ s.commit_index args.leader_commit then new_commit at args s else s.last_applied

abbrev pub new_ops : ℕ → AppendEntriesParams → Replica → List Operation
new_ops at args s =
    if ltb_ℤ s.commit_index args.leader_commit
    then between s.last_applied (new_commit at args s) (new_log at args s)
    else []

pub record Followed (args : AppendEntriesParams) (s : Replica) (at : ℕ) (t : Replica) : Type 0 where
  pub place : inc args.prev_log_index ≡ pos at
  pub matched : prev_matches args.prev_log_index args.prev_log_term s.logs.items ≡ some true
  pub recent : s.current_term ≤ℤ args.term
  pub term : t.current_term ≡ args.term
  pub role : t.role ≡ follower
  pub log : t.logs.items ≡ new_log at args s
  pub commit : t.commit_index ≡ new_commit at args s
  pub queued : t.raft_out ≡ s.raft_out ++ new_ops at args s
  pub applied : t.last_applied ≡ new_applied at args s

take_entries-eq :
    (args : AppendEntriesParams) (u : Replica) (at : ℕ)
    → inc args.prev_log_index ≡ pos at
    → minus_one ≤ℤ u.last_applied
    → let v = accept_entries at args.entries u in
      take_entries args u
      ≡ some (
          if ltb_ℤ v.commit_index args.leader_commit
          then advanced (commit_after args.leader_commit v) v
          else v)
unfolding take_entries
take_entries-eq args u at place low =
    rw (place, take_entries)
      (follow_commit-eq args.leader_commit (accept_entries at args.entries u)
        (rw (ap (λ (c : Core). c.last_applied) (core-accept_entries at args.entries u)) low))

record Settled (args : AppendEntriesParams) (u : Replica) (at : ℕ) (t : Replica) : Type 0 where
  term : t.current_term ≡ u.current_term
  role : t.role ≡ u.role
  log : t.logs.items ≡ new_log at args u
  commit : t.commit_index ≡ new_commit at args u
  queued : t.raft_out ≡ u.raft_out ++ new_ops at args u
  applied : t.last_applied ≡ new_applied at args u

settle :
    (args : AppendEntriesParams) (u v : Replica) (at : ℕ)
    → core v ≡ core u
    → v.logs.items ≡ new_log at args u
    → Settled args u at (
        if ltb_ℤ v.commit_index args.leader_commit
        then advanced (commit_after args.leader_commit v) v
        else v)
settle args u v at same log = elim (Bool-cases (ltb_ℤ v.commit_index args.leader_commit)) [
  | inl e ↦
      let e' : ltb_ℤ u.commit_index args.leader_commit ≡ true =
        rw (ap (λ (c : Core). c.commit_index) same) at e in
      rw e (record {
        term = ap (λ (c : Core). c.current_term) same;
        role = ap (λ (c : Core). c.role) same;
        log = log;
        commit = rw (e', log);
        queued =
            rw
              (e', log, ap (λ (c : Core). c.raft_out) same, ap (λ (c : Core). c.last_applied) same);
        applied = rw (e', log);
      })
  | inr e ↦
      let e' : ltb_ℤ u.commit_index args.leader_commit ≡ false =
        rw (ap (λ (c : Core). c.commit_index) same) at e in
      rw e (record {
        term = ap (λ (c : Core). c.current_term) same;
        role = ap (λ (c : Core). c.role) same;
        log = log;
        commit = rw e' (ap (λ (c : Core). c.commit_index) same);
        queued = rw e' (ap (λ (c : Core). c.raft_out) same ∙ sym (append-nil u.raft_out));
        applied = rw e' (ap (λ (c : Core). c.last_applied) same);
      })
]

-- The accepted entries and the commit index, for the replica that takes them in.
take_entries-Settled :
    (args : AppendEntriesParams) (u : Replica) (at : ℕ)
    → inc args.prev_log_index ≡ pos at
    → minus_one ≤ℤ u.last_applied
    → (t : Replica) × (take_entries args u ≡ some t) × Settled args u at t
take_entries-Settled args u at place low = (
  _,
  take_entries-eq args u at place low,
  settle args u (accept_entries at args.entries u) at (core-accept_entries at args.entries u)
      (items-accept_entries-overlay at args.entries u),
)

pub prev_matches-defined :
    (i term : ℤ) (logs : List LogEntry)
    → minus_one ≤ℤ i
    → (b : Bool) × (prev_matches i term logs ≡ some b)
unfolding prev_matches pos_part neg_part
prev_matches-defined (pos i) term logs h = elim (Option-cases (get_elem? logs i)) [
  | inl e ↦ (false, rw (e, prev_matches))
  | inr found ↦ (term ==ℤ (found.0).term, rw (found.1, prev_matches))
]
prev_matches-defined (negsuc zero) term logs h = (true, refl)
prev_matches-defined (negsuc (suc i)) term logs h = absurd (omega arith)

same_term-found :
    (args : AppendEntriesParams) (u : Replica) (at : ℕ)
    → prev_matches args.prev_log_index args.prev_log_term u.logs.items ≡ some true
    → inc args.prev_log_index ≡ pos at
    → minus_one ≤ℤ u.last_applied
    → (t : Replica) × (same_term args u
        ≡ some (t, record { term = t.current_term; success = true }))
      × Settled args u at t
unfolding same_term
same_term-found args u at found place low =
    let (t, taken, settled) = take_entries-Settled args u at place low in
    (t, rw (found, taken), settled)

pub same_term-missing :
    (args : AppendEntriesParams) (u : Replica)
    → prev_matches args.prev_log_index args.prev_log_term u.logs.items ≡ some false
    → same_term args u ≡ some (u, record { term = u.current_term; success = false })
unfolding same_term
same_term-missing args u missing = rw missing

-- Why a call is refused, and that it changes neither the log nor what is committed of it.
pub record Refused (args : AppendEntriesParams) (s t : Replica) : Type 0 where
  pub reason :
      (is_dead s.role ≡ true)
      ⊎ ((args.term <ℤ s.current_term)
          ⊎ (prev_matches args.prev_log_index args.prev_log_term s.logs.items ≡ some false))
  pub kept : work t ≡ work s

abbrev pub Answer : AppendEntriesParams → Replica → Replica → AppendEntriesRet → Type 0
Answer args s t r =
    ((r.success ≡ true) × (r.term ≡ args.term) × (at : ℕ) × Followed args s at t)
    ⊎ ((r.success ≡ false) × Refused args s t)

module _ (now : ℕ) (args : AppendEntriesParams) (s : Replica) where
  -- Once the term is the sender's, it was not above it before.
  recent-heard : (heard now args s).current_term ≡ args.term → s.current_term ≤ℤ args.term
  recent-heard e = ground (arith, term-heard now args s)

  stale-heard :
      (args.term ==ℤ (heard now args s).current_term) ≡ false → args.term <ℤ s.current_term
  stale-heard e = ground (
    arith,
    term-heard now args s,
    ==ℤ_iff args.term (heard now args s).current_term,
    eq_of_parts args.term s.current_term,
  )

settled-Followed :
    (args : AppendEntriesParams) (s u t : Replica) (at : ℕ)
    → inc args.prev_log_index ≡ pos at
    → prev_matches args.prev_log_index args.prev_log_term s.logs.items ≡ some true
    → s.current_term ≤ℤ args.term
    → work u ≡ work s
    → (u.role ≡ follower) × (u.current_term ≡ args.term)
    → Settled args u at t
    → Followed args s at t
settled-Followed args s u t at place matched recent same here settled =
    let l : u.logs ≡ s.logs = ap (λ (w : Work). w.logs) same in
    let c : u.commit_index ≡ s.commit_index = ap (λ (w : Work). w.commit_index) same in
    let a : u.last_applied ≡ s.last_applied = ap (λ (w : Work). w.last_applied) same in
    let o : u.raft_out ≡ s.raft_out = ap (λ (w : Work). w.raft_out) same in
    record {
      place = place;
      matched = matched;
      recent = recent;
      term = settled.term ∙ here.1;
      role = settled.role ∙ here.0;
      log = rw l at settled.log;
      commit = rw (l, c) at settled.commit;
      queued = rw (l, c, a, o) at settled.queued;
      applied = rw (l, c, a) at settled.applied;
    }

module _ (now : ℕ) (args : AppendEntriesParams) (s : Replica)
    (low : minus_one ≤ℤ s.last_applied) where
  current-Answer :
      minus_one ≤ℤ args.prev_log_index
      → (heard now args s).current_term ≡ args.term
      → (t : Replica) × (r : AppendEntriesRet) × (same_term args (ready now args s) ≡ some (t, r))
        × Answer args s t r
  current-Answer sound e =
      let u = ready now args s in
      let same = work-ready now args s in
      let l : u.logs ≡ s.logs = ap (λ (w : Work). w.logs) same in
      let a : u.last_applied ≡ s.last_applied = ap (λ (w : Work). w.last_applied) same in
      let here = ready-follower now args s e in
      let (at, place) = inc-place args.prev_log_index sound in
      let (b, outcome) =
        prev_matches-defined args.prev_log_index args.prev_log_term s.logs.items sound in
      elim (Bool-cases b) [
        | inl found ↦
            let matched : prev_matches args.prev_log_index args.prev_log_term s.logs.items
                ≡ some true =
              rw found at outcome in
            let (t, run, settled) = same_term-found args u at (rw l matched) place (rw a low) in
            (
              t,
              record { term = t.current_term; success = true },
              run,
              inl (
                refl,
                settled.term ∙ here.1,
                at,
                settled-Followed args s u t at place matched (recent-heard now args s e) same here
                    settled,
              ),
            )
        | inr missing ↦
            let m : prev_matches args.prev_log_index args.prev_log_term s.logs.items ≡ some false =
              rw missing at outcome in
            (
              u,
              record { term = u.current_term; success = false },
              same_term-missing args u (rw l m),
              inr (refl, record { reason = inr (inr m); kept = same }),
            )
      ]

  -- Every call on a replica whose last applied index is at least -1 returns, if the sender's previous
  -- index is at least -1: no read of the log is out of bounds. Either it succeeds: then the term
  -- was not stale, the entry before the new ones was found, the replica is a follower of the
  -- sender's term, the log keeps its own entries exactly as far as their terms agree with the new
  -- ones, and the commit index, the last applied index and the queue of the executer move as far as
  -- the leader's commit index and the log allow. Or it fails, because the replica is dead, the term
  -- is stale or the entry before is missing: then the log, the two indices and the queue are as
  -- before.
  pub append_entries-Answer :
      minus_one ≤ℤ args.prev_log_index
      → (t : Replica) × (r : AppendEntriesRet) × (append_entries now args s ≡ some (t, r))
        × Answer args s t r
  append_entries-Answer sound = elim (Bool-cases (is_dead s.role)) [
    | inl gone ↦ (
      touch_timer now args s,
      record { term = pos 0; success = false },
      append_entries-dead now args s gone,
      inr (refl, record { reason = inl gone; kept = work-touch_timer now args s }),
    )
    | inr alive ↦ elim (Bool-cases (args.term ==ℤ (heard now args s).current_term)) [
      | inr stale ↦ (
        heard now args s,
        record { term = (heard now args s).current_term; success = false },
        append_entries-stale now args s alive stale,
        inr (
          refl,
          record {
            reason = inr (inl (stale-heard now args s stale));
            kept = work-heard now args s;
          },
        ),
      )
      | inl current ↦
          let (t, r, run, answer) = current-Answer sound (sym ((==ℤ_iff _ _).0 current)) in
          (t, r, append_entries-current now args s alive current ∙ run, answer)
    ]
  ]
