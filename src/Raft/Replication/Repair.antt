-- ===== src/Raft/Replication/Repair.antt =====
-- How a leader of ohmyraft/OhMyRaft.H brings a follower's log in line: the thread for the peer, sent again
-- and again, where every call gets through.
pub mod Ends
use oh_my_db.Prelude.{
  ℕ, zero, suc, ◌+◌, ◌≤◌, ◌≡◌, refl, sym, ap, ◌∙◌, subst, inl, inr, ◌⊎◌, ℤ, pos, minus_one, true,
  false, Option, some, ◌>>=◌, List, [], ◌∷◌, length, length-drop, take, drop, get_elem?, dec, plus,
  find, find_or, insert, find-insert, ==ℤ_refl, ltb_ℤ, ◌≤ℤ◌, ◌<ℤ◌, arith, Bool-cases, Map,
  eq_of_parts,
}
use oh_my_db.Consensus.{LogEntry, AppendEntriesParams, AppendEntriesRet}
use oh_my_db.Raft.{Replica}
use oh_my_db.Raft.Append.{append_entries, is_dead, prev_matches}
use oh_my_db.Raft.Append.Followed.{append_entries-Answer, prev_matches-defined, same_term-missing}
use oh_my_db.Raft.Append.Outcome.{
  Work, heard, term-heard, ready, work-ready, ready-follower, append_entries-current,
}
use oh_my_db.Raft.Leader.{
  append_args, next_of, is_leader, handle_append_reply, term_before, entries_at, count_success,
  commit_and_queue,
}
use oh_my_db.Raft.Machine.Steady.{InStep, handle_append_reply-InStep}
use oh_my_db.Raft.Replication.Network.Moved.{counted, commit_and_queue-view}
use oh_my_db.Raft.Replication.{
  stripped, LogMatching, request, dec_pos-low, length-entries_from, append_entries-replicates,
}

-- The body of the thread for a peer, from the request to what is done with the reply.
unfoldable pub exchange : ℤ → ℤ → ℕ → Replica × Replica → Option (Replica × Replica)
exchange saved peer now p = do
  args ← append_args saved peer p.0
  answer ← append_entries now args p.1
  l ← handle_append_reply now peer saved (next_of peer p.0) (length args.entries) answer.1 p.0
  some (l, answer.0)

-- The threads of `n` rounds; `clock` gives the time of each, from round `i` on.
unfoldable pub exchanges : ℤ → ℤ → (ℕ → ℕ) → ℕ → ℕ → Replica × Replica → Option (Replica × Replica)
unfolding exchange
exchanges saved peer clock i zero p = some p
exchanges saved peer clock i (suc n) p = do
  q ← exchange saved peer (clock i) p
  exchanges saved peer clock (suc i) n q

-- A leader of term `saved`, and a live follower of no later term.
pub record CanRepair (saved : ℤ) (l f : Replica) : Type 0 where
  pub leads : is_leader l.role ≡ true
  pub alive : is_dead f.role ≡ false
  pub recent : f.current_term ≤ℤ saved
  pub steady_leader : InStep l
  pub steady : InStep f
  pub matching : LogMatching f.logs.items l.logs.items

get_elem?-found :
    (i : ℕ) (xs : List LogEntry) → suc i ≤ length xs → (e : LogEntry) × (get_elem? xs i ≡ some e)
get_elem?-found i [] h = absurd (omega arith)
get_elem?-found zero (x ∷ xs) h = (x, refl)
get_elem?-found (suc i) (x ∷ xs) h = get_elem?-found i xs (omega arith)

term_before-defined :
    (n : ℕ) (ls : List LogEntry)
    → n ≤ length ls
    → (pt : ℤ) × (term_before (dec (pos n)) ls ≡ some pt)
unfolding term_before dec
term_before-defined zero ls h = (minus_one, refl)
term_before-defined (suc n) ls h =
    let (e, found) = get_elem?-found n ls h in (e.term, rw (found, term_before) refl)

pub find_or-insert : (k : ℤ) (d v : ℤ) (m : Map ℤ) → find_or k d (insert k v m) ≡ v
unfolding find_or insert
find_or-insert k d v [] = ground (arith, ==ℤ_refl k)
find_or-insert k d v ((i, w) ∷ m) = ground (arith, ==ℤ_refl k, find_or-insert k d v m)

heard-saved :
    (now : ℕ) (args : AppendEntriesParams) (f : Replica)
    → f.current_term ≤ℤ args.term
    → (heard now args f).current_term ≡ args.term
heard-saved now args f h =
    ground (arith, term-heard now args f, eq_of_parts f.current_term args.term)

-- The request of a thread is built, for a next index inside the leader's log.
pub append_args-built :
    (saved peer : ℤ) (l : Replica) (n : ℕ) (next : next_of peer l ≡ pos n)
    → n ≤ length l.logs.items
    → (pt : ℤ) × (term_before (dec (pos n)) l.logs.items ≡ some pt)
      × (append_args saved peer l ≡ some (request saved peer l n next pt))
unfolding append_args request entries_at
append_args-built saved peer l n next h =
    let (pt, before) = term_before-defined n l.logs.items h in (pt, before, rw (next, before) refl)

-- A follower that lacks the entry before says so in the leader's term.
pub append_entries-missing :
    (now : ℕ) (args : AppendEntriesParams) (f : Replica)
    → is_dead f.role ≡ false
    → f.current_term ≤ℤ args.term
    → prev_matches args.prev_log_index args.prev_log_term f.logs.items ≡ some false
    → append_entries now args f
      ≡ some (ready now args f, record { term = args.term; success = false })
append_entries-missing now args f alive recent missing =
    let e = heard-saved now args f recent in
    let same : (ready now args f).logs ≡ f.logs =
      ap (λ (w : Work). w.logs) (work-ready now args f) in
    let term = (ready-follower now args f e).1 in
    append_entries-current now args f alive (rw e (==ℤ_refl args.term))
    ∙ same_term-missing args (ready now args f) (rw same missing)
    ∙ ap (λ t. some (ready now args f, record { term = t; success = false })) term

ltb_ℤ-irrefl : (a : ℤ) → ltb_ℤ a a ≡ false
ltb_ℤ-irrefl a = ground arith

-- What the leader does then.
pub handle_append_reply-refused :
    (now : ℕ) (peer saved next : ℤ) (count : ℕ) (l : Replica)
    → is_leader l.role ≡ true
    → handle_append_reply now peer saved next count (record { term = saved; success = false }) l
      ≡ some (record l { next_index = insert peer (dec next) l.next_index })
unfolding handle_append_reply
handle_append_reply-refused now peer saved next count l leads =
    rw (ltb_ℤ-irrefl saved, leads, ==ℤ_refl saved) refl

handle_append_reply-counts :
    (now : ℕ) (peer saved next : ℤ) (count : ℕ) (l : Replica)
    → is_leader l.role ≡ true
    → handle_append_reply now peer saved next count (record { term = saved; success = true }) l
      ≡ commit_and_queue (counted peer next count l)
unfolding handle_append_reply count_success
handle_append_reply-counts now peer saved next count l leads =
    rw (ltb_ℤ-irrefl saved, leads, ==ℤ_refl saved) refl

-- What the leader has after a success.
pub record Informed (peer next : ℤ) (count : ℕ) (l t : Replica) : Type 0 where
  pub filed : find peer t.match_index ≡ some (dec (plus next count))
  pub logs : t.logs ≡ l.logs

pub handle_append_reply-Informed :
    (now : ℕ) (peer saved next : ℤ) (count : ℕ) (l : Replica)
    → is_leader l.role ≡ true
    → InStep l
    → (t : Replica) × (handle_append_reply now peer saved next count
          (record { term = saved; success = true })
          l
        ≡ some t)
      × Informed peer next count l t
handle_append_reply-Informed now peer saved next count l leads steady =
    let (t, run, kept) =
      handle_append_reply-InStep now peer saved next count (record { term = saved; success = true })
        l steady in
    let u = counted peer next count l in
    let same =
      (commit_and_queue-view u t
        (sym (handle_append_reply-counts now peer saved next count l leads) ∙ run)).1 in
    (
      t,
      run,
      record {
        filed =
            ap (λ (x : Replica). find peer x.match_index) same
            ∙ find-insert peer peer (dec (plus next count)) l.match_index
            ∙ rw (==ℤ_refl peer) refl;
        logs = ap (λ (x : Replica). x.logs) same;
      },
    )

-- The leader has filed the end of its log for the peer, which holds all of it.
pub record Repaired (peer : ℤ) (l l' f' : Replica) : Type 0 where
  pub logs : l'.logs ≡ l.logs
  pub filed : find peer l'.match_index ≡ some (dec (pos (length l.logs.items)))
  pub same : stripped (take (length l.logs.items) f'.logs.items) ≡ stripped l.logs.items

-- An exchange that is refused moves the next index one back, and leaves all else fit for the next.
pub record OneBack (saved peer : ℤ) (m : ℕ) (l l' f' : Replica) : Type 0 where
  pub logs : l'.logs ≡ l.logs
  pub next : next_of peer l' ≡ pos m
  pub fit : CanRepair saved l' f'

pub exchange-eq :
    (saved peer : ℤ) (now : ℕ) (l f l' t : Replica) (args : AppendEntriesParams)
    (r : AppendEntriesRet)
    → append_args saved peer l ≡ some args
    → append_entries now args f ≡ some (t, r)
    → handle_append_reply now peer saved (next_of peer l) (length args.entries) r l ≡ some l'
    → exchange saved peer now (l, f) ≡ some (l', t)
unfolding exchange
exchange-eq saved peer now l f l' t args r a b c = rw (a, b, c) refl

ready-InStep :
    (now : ℕ) (args : AppendEntriesParams) (f : Replica) → InStep f → InStep (ready now args f)
ready-InStep now args f h =
    let w = work-ready now args f in
    let commit : (ready now args f).commit_index ≡ f.commit_index =
      ap (λ (x : Work). x.commit_index) w in
    record {
      applied = ap (λ (x : Work). x.last_applied) w ∙ h.applied ∙ sym commit;
      low = subst (λ (i : ℤ). minus_one ≤ℤ i) (sym commit) h.low;
    }

pub ready-CanRepair :
    (now : ℕ) (args : AppendEntriesParams) (l l' f : Replica)
    → CanRepair args.term l f
    → is_leader l'.role ≡ true
    → InStep l'
    → l'.logs ≡ l.logs
    → CanRepair args.term l' (ready now args f)
unfolding is_dead
ready-CanRepair now args l l' f h leads steady log =
    let (role, term) = ready-follower now args f (heard-saved now args f h.recent) in
    let same : (ready now args f).logs ≡ f.logs =
      ap (λ (w : Work). w.logs) (work-ready now args f) in
    record {
      leads = leads;
      alive = rw role refl;
      recent = rw term (omega arith);
      steady_leader = steady;
      steady = ready-InStep now args f h.steady;
      matching = rw (log, same) h.matching;
    }
