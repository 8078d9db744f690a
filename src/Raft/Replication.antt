-- ===== src/Raft/Replication.antt =====
-- From the leader's parameters to the follower's log, and back to `MatchIndex`: the parts of
-- `runLeaderOneIter` and `AppendEntries` of ohmyraft/OhMyRaft.H together.
pub mod Committed
pub mod Logs
pub mod Network
pub mod Session
pub mod Repair
use mathlib.Core.List.{map-append}
use oh_my_db.Prelude.{
  ℕ, zero, suc, ◌+◌, ◌-◌, ◌≤◌, ◌≡◌, refl, sym, ap, ◌∙◌, inl, inr, ℤ, pos, minus_one, true, some,
  List, [], ◌∷◌, ◌++◌, map, length, take, drop, take-append-drop, take-append_add, length-take,
  length-drop, length-map, get_elem?, inc, dec, ==ℤ_iff, ◌≤ℤ◌, arith, Option-cases, >>=-eq-some,
  some-eq-some, subst, pos_part, neg_part,
}
use mathlib.Core.Path.{◌≡⟨◌⟩◌, ◌∎}
use oh_my_db.Consensus.{LogEntry, AppendEntriesParams, AppendEntriesRet}
use oh_my_db.Raft.{Replica}
use oh_my_db.Raft.Append.{strip, prev_matches, append_entries}
use oh_my_db.Raft.Append.Overlay.{overlay, Matching, shipped, overlay-shipped}
use oh_my_db.Raft.Append.Followed.{Followed, new_log, Answer, append_entries-Answer}
use oh_my_db.Raft.Leader.{entries_from, term_before, entries_at, next_of, append_args}

abbrev pub stripped : List LogEntry → List LogEntry
stripped = map strip

-- The log matching property of Raft for two logs: where they have an entry of one term at one
-- index, they agree up to that index.
abbrev pub LogMatching : List LogEntry → List LogEntry → Type 0
LogMatching fs ls =
    (i : ℕ) (e e' : LogEntry)
    → get_elem? fs i ≡ some e
    → get_elem? ls i ≡ some e'
    → e.term ≡ e'.term
    → stripped (take (suc i) fs) ≡ stripped (take (suc i) ls)

LogMatching-tail :
    (f l : LogEntry) (fs ls : List LogEntry) → LogMatching (f ∷ fs) (l ∷ ls) → LogMatching fs ls
LogMatching-tail f l fs ls h i e e' p q r = cc (h (suc i) e e' p q r)

LogMatching-drop :
    (n : ℕ) (fs ls : List LogEntry) → LogMatching fs ls → LogMatching (drop n fs) (drop n ls)
LogMatching-drop zero fs ls h = h
LogMatching-drop (suc n) [] ls h = λ i e e' p q r. cc
LogMatching-drop (suc n) (f ∷ fs) [] h = λ i e e' p q r. cc
LogMatching-drop (suc n) (f ∷ fs) (l ∷ ls) h =
    LogMatching-drop n fs ls (LogMatching-tail f l fs ls h)

LogMatching-Matching :
    (i : ℕ) (fs ls : List LogEntry) → LogMatching fs ls → Matching fs (entries_from i ls)
unfolding entries_from strip
LogMatching-Matching i [] ls h = tt
LogMatching-Matching i (f ∷ fs) [] h = tt
LogMatching-Matching i (f ∷ fs) (l ∷ ls) h = λ e.
    (cc (h 0 f l refl refl e), LogMatching-Matching (suc i) fs ls (LogMatching-tail f l fs ls h))

shipped-entries_from : (i : ℕ) (ls : List LogEntry) → shipped (entries_from i ls) ≡ stripped ls
unfolding entries_from strip
shipped-entries_from i [] = refl
shipped-entries_from i (l ∷ ls) = ap (λ zs. strip l ∷ zs) (shipped-entries_from (suc i) ls)

pub length-entries_from : (i : ℕ) (ls : List LogEntry) → length (entries_from i ls) ≡ length ls
unfolding entries_from
length-entries_from i [] = refl
length-entries_from i (l ∷ ls) = ap suc (length-entries_from (suc i) ls)

-- A log that has `n` entries in common with another, and then the rest of it overlaid, begins with
-- the other log.
pub overlaid-stripped :
    (n : ℕ) (fs ls : List LogEntry)
    → n ≤ length ls
    → stripped (take n fs) ≡ stripped (take n ls)
    → LogMatching fs ls
    → stripped (take (length ls) (take n fs ++ overlay (drop n fs) (entries_from n (drop n ls))))
      ≡ stripped ls
overlaid-stripped n fs ls h same matching =
    let es = entries_from n (drop n ls) in
    let count : length es ≡ length ls - n = length-entries_from n (drop n ls) ∙ length-drop n ls in
    let total : length ls ≡ n + length es = omega arith in
    let lengths : length (take n fs) ≡ length (take n ls) =
      sym (length-map (take n fs) strip) ∙ ap length same ∙ length-map (take n ls) strip in
    let front : length (take n fs) ≡ n = omega (arith, length-take n ls) in
    stripped (take (length ls) (take n fs ++ overlay (drop n fs) es))
    ≡⟨ ap (λ (k : ℕ). stripped (take k (take n fs ++ overlay (drop n fs) es))) total ⟩
      stripped (take (n + length es) (take n fs ++ overlay (drop n fs) es))
    ≡⟨ ap stripped (take-append_add (take n fs) (overlay (drop n fs) es) n (length es) front) ⟩
      stripped (take n fs ++ take (length es) (overlay (drop n fs) es))
    ≡⟨ map-append strip (take n fs) (take (length es) (overlay (drop n fs) es)) ⟩
      stripped (take n fs) ++ stripped (take (length es) (overlay (drop n fs) es))
    ≡⟨ cc (
      same,
      overlay-shipped (drop n fs) es
          (LogMatching-Matching n (drop n fs) (drop n ls) (LogMatching-drop n fs ls matching)),
      shipped-entries_from n (drop n ls),
    ) ⟩
      stripped (take n ls) ++ stripped (drop n ls)
    ≡⟨ sym (map-append strip (take n ls) (drop n ls)) ⟩ stripped (take n ls ++ drop n ls)
    ≡⟨ ap stripped (take-append-drop n ls) ⟩ stripped ls ∎

-- The entry before the new ones, found by its term, makes the logs agree up to it.
pub prefix-stripped :
    (n : ℕ) (pt : ℤ) (fs ls : List LogEntry)
    → term_before (dec (pos n)) ls ≡ some pt
    → prev_matches (dec (pos n)) pt fs ≡ some true
    → LogMatching fs ls
    → stripped (take n fs) ≡ stripped (take n ls)
unfolding term_before prev_matches dec
prefix-stripped zero pt fs ls before found matching = refl
prefix-stripped (suc m) pt fs ls before found matching = elim (Option-cases (get_elem? fs m)) [
  | inl e ↦ absurd (ground (arith, e))
  | inr (x, ex) ↦ elim (Option-cases (get_elem? ls m)) [
    | inl e ↦ absurd (ground (arith, e))
    | inr (y, ey) ↦ matching m x y ex ey (ground (arith, ex, ey, ==ℤ_iff pt x.term))
  ]
]

module _ (saved peer : ℤ) (l : Replica) (n : ℕ) (next : next_of peer l ≡ pos n) where
  unfoldable pub request : ℤ → AppendEntriesParams
  request pt = record {
    term = saved;
    leader_id = l.id;
    prev_log_index = dec (pos n);
    prev_log_term = pt;
    entries = entries_from n (drop n l.logs.items);
    leader_commit = l.commit_index;
  }

  pub append_args-request :
      (args : AppendEntriesParams)
      → append_args saved peer l ≡ some args
      → (pt : ℤ) × (term_before (dec (pos n)) l.logs.items ≡ some pt) × (args ≡ request pt)
  unfolding append_args request entries_at
  append_args-request args h =
      let (pt, before, rest) =
        >>=-eq-some (term_before (dec (pos n)) l.logs.items) _ (rw next at h) in
      (pt, before, sym (some-eq-some rest))

pub inc-dec_pos : (n : ℕ) → inc (dec (pos n)) ≡ pos n
unfolding inc dec
inc-dec_pos zero = refl
inc-dec_pos (suc n) = refl

pub dec_pos-low : (n : ℕ) → minus_one ≤ℤ dec (pos n)
unfolding dec pos_part neg_part
dec_pos-low zero = omega arith
dec_pos-low (suc n) = omega arith

pub pos-injective : (a b : ℕ) → pos a ≡ pos b → a ≡ b
pos-injective a b h = cc

-- What an answered call of `AppendEntries` says, for a call that is known to return `(t, r)`.
pub answered :
    (now : ℕ) (args : AppendEntriesParams) (f t : Replica) (r : AppendEntriesRet)
    → minus_one ≤ℤ f.last_applied
    → minus_one ≤ℤ args.prev_log_index
    → append_entries now args f ≡ some (t, r)
    → Answer args f t r
answered now args f t r low sound run =
    let (t', r', run', answer) = append_entries-Answer now args f low sound in
    let e : ◌≡◌ {A = Replica × AppendEntriesRet} (t', r') (t, r) = some-eq-some (sym run' ∙ run) in
    subst (λ (p : Replica × AppendEntriesRet). Answer args f p.0 p.1) e answer

pub success-Followed :
    (args : AppendEntriesParams) (f t : Replica) (r : AppendEntriesRet)
    → Answer args f t r
    → r.success ≡ true
    → (at : ℕ) × Followed args f at t
success-Followed args f t r (inl done) h = (done.2, done.3)
success-Followed args f t r (inr (failed, _)) h = absurd (cc (failed, h))

-- A follower that answers the leader's own parameters with success holds the leader's log, up to the
-- promises, which stay at home: for a next index inside the leader's log, under Raft's log matching
-- property, and for a follower that has applied no index below -1.
pub append_entries-replicates :
    (now : ℕ) (saved peer : ℤ) (n : ℕ) (l f t : Replica) (args : AppendEntriesParams)
    (r : AppendEntriesRet)
    → next_of peer l ≡ pos n
    → n ≤ length l.logs.items
    → LogMatching f.logs.items l.logs.items
    → minus_one ≤ℤ f.last_applied
    → append_args saved peer l ≡ some args
    → append_entries now args f ≡ some (t, r)
    → r.success ≡ true
    → stripped (take (length l.logs.items) t.logs.items) ≡ stripped l.logs.items
unfolding request
append_entries-replicates now saved peer n l f t args r next fits matching low sent run success =
    let (pt, before, same) = append_args-request saved peer l n next args sent in
    replicated pt before (rw same at run)
  where
    replicated :
        (pt : ℤ)
        → term_before (dec (pos n)) l.logs.items ≡ some pt
        → append_entries now (request saved peer l n next pt) f ≡ some (t, r)
        → stripped (take (length l.logs.items) t.logs.items) ≡ stripped l.logs.items
    replicated pt before run' =
        let q = request saved peer l n next pt in
        let (at, fol) =
          success-Followed q f t r (answered now q f t r low (dec_pos-low n) run') success in
        let here : at ≡ n = pos-injective at n (sym fol.place ∙ inc-dec_pos n) in
        let log : t.logs.items ≡ take n f.logs.items ++ overlay (drop n f.logs.items) q.entries =
          subst (λ (k : ℕ). t.logs.items ≡ new_log k q f) here fol.log in
        rw log (
          overlaid-stripped n f.logs.items l.logs.items fits
            (prefix-stripped n pt f.logs.items l.logs.items before fol.matched matching) matching)
