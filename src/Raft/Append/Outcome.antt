-- ===== src/Raft/Append/Outcome.antt =====
-- The answers of `AppendEntries` of ohmyraft/OhMyRaft.H, branch by branch.
use oh_my_db.Prelude.{
  ℕ, ◌≡◌, refl, ap, ◌∙◌, inl, inr, ℤ, pos, true, false, some, List, ltb_ℤ, leb_ℤ, ◌==ℤ◌, arith,
  Bool-cases, if◌then◌else◌,
}
use oh_my_db.Consensus.{LogEntry, Operation, RaftRole, follower, AppendEntriesParams}
use oh_my_db.Persist.Log.{LogVector}
use oh_my_db.Raft.{Replica}
use oh_my_db.Raft.Roles.{become_follower}
use oh_my_db.Raft.Append.{
  hear_leader, touch_timer, is_dead, is_follower, yield_to_leader, same_term, append_entries,
}

-- The log and what is committed of it.
pub record Work : Type 0 where
  pub logs : LogVector LogEntry
  pub commit_index : ℤ
  pub last_applied : ℤ
  pub raft_out : List Operation

abbrev pub work : Replica → Work
work s = record {
  logs = s.logs;
  commit_index = s.commit_index;
  last_applied = s.last_applied;
  raft_out = s.raft_out;
}

-- The replica that tests the term, and the one that looks at the entries.
abbrev pub heard : ℕ → AppendEntriesParams → Replica → Replica
heard now args s = hear_leader now args (touch_timer now args s)

abbrev pub ready : ℕ → AppendEntriesParams → Replica → Replica
ready now args s = yield_to_leader now args (heard now args s)

pub work-touch_timer :
    (now : ℕ) (args : AppendEntriesParams) (s : Replica) → work (touch_timer now args s) ≡ work s
unfolding touch_timer
work-touch_timer now args s = elim (Bool-cases (leb_ℤ s.current_term args.term)) [
  | inl h ↦ rw h
  | inr h ↦ rw h
]

term-touch_timer :
    (now : ℕ) (args : AppendEntriesParams) (s : Replica)
    → (touch_timer now args s).current_term ≡ s.current_term
unfolding touch_timer
term-touch_timer now args s = elim (Bool-cases (leb_ℤ s.current_term args.term)) [
  | inl h ↦ rw h
  | inr h ↦ rw h
]

role-touch_timer :
    (now : ℕ) (args : AppendEntriesParams) (s : Replica) → (touch_timer now args s).role ≡ s.role
unfolding touch_timer
role-touch_timer now args s = elim (Bool-cases (leb_ℤ s.current_term args.term)) [
  | inl h ↦ rw h
  | inr h ↦ rw h
]

work-hear_leader :
    (now : ℕ) (args : AppendEntriesParams) (s : Replica) → work (hear_leader now args s) ≡ work s
unfolding hear_leader become_follower
work-hear_leader now args s = elim (Bool-cases (ltb_ℤ s.current_term args.term)) [
  | inl h ↦ rw h
  | inr h ↦ rw h
]

work-yield :
    (now : ℕ) (args : AppendEntriesParams) (s : Replica)
    → work (yield_to_leader now args s) ≡ work s
unfolding yield_to_leader become_follower
work-yield now args s = elim (Bool-cases (is_follower s.role)) [ inl h ↦ rw h | inr h ↦ rw h ]

-- The term that a replica has after the sender's term is taken in.
abbrev pub later_term : AppendEntriesParams → Replica → ℤ
later_term args s = if ltb_ℤ s.current_term args.term then args.term else s.current_term

term-hear_leader :
    (now : ℕ) (args : AppendEntriesParams) (s : Replica)
    → (hear_leader now args s).current_term ≡ later_term args s
unfolding hear_leader become_follower
term-hear_leader now args s = elim (Bool-cases (ltb_ℤ s.current_term args.term)) [
  | inl h ↦ rw h
  | inr h ↦ rw h
]

is_follower-eq : (r : RaftRole) → is_follower r ≡ true → r ≡ follower
unfolding is_follower
is_follower-eq r h = ground arith

yield-follower :
    (now : ℕ) (args : AppendEntriesParams) (u : Replica)
    → u.current_term ≡ args.term
    → ((yield_to_leader now args u).role ≡ follower)
      × ((yield_to_leader now args u).current_term ≡ args.term)
unfolding yield_to_leader become_follower
yield-follower now args u e = elim (Bool-cases (is_follower u.role)) [
  | inl h ↦ rw h (is_follower-eq u.role h, e)
  | inr h ↦ rw h (refl, refl)
]

module _ (now : ℕ) (args : AppendEntriesParams) (s : Replica) where
  pub work-heard : work (heard now args s) ≡ work s
  work-heard = work-hear_leader now args (touch_timer now args s) ∙ work-touch_timer now args s

  pub work-ready : work (ready now args s) ≡ work s
  work-ready = work-yield now args (heard now args s) ∙ work-heard

  pub term-heard : (heard now args s).current_term ≡ later_term args s
  term-heard =
      term-hear_leader now args (touch_timer now args s)
      ∙ ap (λ t. if ltb_ℤ t args.term then args.term else t) (term-touch_timer now args s)

  pub ready-follower :
      (heard now args s).current_term ≡ args.term
      → ((ready now args s).role ≡ follower) × ((ready now args s).current_term ≡ args.term)
  ready-follower e = yield-follower now args (heard now args s) e

  -- The three ways through the handler.
  pub append_entries-dead :
      is_dead s.role ≡ true
      → append_entries now args s
        ≡ some (touch_timer now args s, record { term = pos 0; success = false })
  unfolding append_entries
  append_entries-dead h = rw (ap is_dead (role-touch_timer now args s) ∙ h)

  pub append_entries-stale :
      is_dead s.role ≡ false
      → (args.term ==ℤ (heard now args s).current_term) ≡ false
      → append_entries now args s
        ≡ some
            (heard now args s, record { term = (heard now args s).current_term; success = false })
  unfolding append_entries
  append_entries-stale h k = rw (ap is_dead (role-touch_timer now args s) ∙ h, k)

  pub append_entries-current :
      is_dead s.role ≡ false
      → (args.term ==ℤ (heard now args s).current_term) ≡ true
      → append_entries now args s ≡ same_term args (ready now args s)
  unfolding append_entries
  append_entries-current h k = rw (ap is_dead (role-touch_timer now args s) ∙ h, k)
