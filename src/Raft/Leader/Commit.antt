-- ===== src/Raft/Leader/Commit.antt =====
-- Which entries the leader of ohmyraft/OhMyRaft.H commits.
use oh_my_db.Prelude.{
  ℕ, zero, suc, ◌+◌, ◌-◌, ◌*◌, ◌<◌, ◌≡◌, refl, ap, ◌∙◌, ◌⊎◌, inl, inr, ℤ, pos, minus_one, Bool,
  true, ◌&&◌, some, List, [], ◌∷◌, length, drop, get_elem?, inc, ◌==ℤ◌, ==ℤ_iff, ◌≤ℤ◌, ◌<ℤ◌, arith,
  int_laws, Bool-cases, subst, some-eq-some, get_elem?-drop, inc-place, inc-place_parts, sym,
}
use oh_my_db.Consensus.{LogEntry}
use oh_my_db.Raft.{Replica}
use oh_my_db.Raft.Leader.{holders, majority_at, commit_loop, leader_commit}

-- The entry at index `i` is of the leader's term, and more than half of the configuration hold it.
pub record Committable (s : Replica) (e : LogEntry) (i : ℕ) : Type 0 where
  pub term : e.term ≡ s.current_term
  pub majority : length s.cluster_config < holders (pos i) s * 2

abbrev test : Replica → LogEntry → ℕ → Bool
test s e i = (e.term ==ℤ s.current_term) && majority_at (pos i) s

test-Committable : (s : Replica) (e : LogEntry) (i : ℕ) → test s e i ≡ true → Committable s e i
unfolding majority_at
test-Committable s e i h = record {
  term = ground (arith, ==ℤ_iff e.term s.current_term);
  majority = ground arith;
}

Committable-test : (s : Replica) (e : LogEntry) (i : ℕ) → Committable s e i → test s e i ≡ true
unfolding majority_at
Committable-test s e i h = ground (arith, h.term, h.majority, ==ℤ_iff e.term s.current_term)

-- The last committable entry of a list that begins at index `i`, if any.
pub record Found (s : Replica) (i : ℕ) (es : List LogEntry) (c : ℤ) : Type 0 where
  pub place : ℕ
  pub entry : LogEntry
  pub index : c ≡ pos (i + place)
  pub here : get_elem? es place ≡ some entry
  pub committable : Committable s entry (i + place)

commit_loop-Found :
    (s : Replica) (i : ℕ) (es : List LogEntry) (commit : ℤ)
    → (commit_loop i es commit s ≡ commit) ⊎ Found s i es (commit_loop i es commit s)
unfolding commit_loop
commit_loop-Found s i [] commit = inl refl
commit_loop-Found s i (e ∷ es) commit = elim (Bool-cases (test s e i)) [
  | inr h ↦ rw h (later commit (commit_loop-Found s (suc i) es commit))
  | inl h ↦ rw h (first h (commit_loop-Found s (suc i) es (pos i)))
]
  where
    shift : (c : ℤ) → Found s (suc i) es c → Found s i (e ∷ es) c
    shift c f = record {
      place = suc f.place;
      entry = f.entry;
      index = f.index ∙ ap pos (omega arith);
      here = f.here;
      committable = subst (Committable s f.entry) (omega arith) f.committable;
    }

    later :
        (c : ℤ)
        → (commit_loop (suc i) es c s ≡ c) ⊎ Found s (suc i) es (commit_loop (suc i) es c s)
        → (commit_loop (suc i) es c s ≡ c) ⊎ Found s i (e ∷ es) (commit_loop (suc i) es c s)
    later c (inl same) = inl same
    later c (inr f) = inr (shift (commit_loop (suc i) es c s) f)

    first :
        test s e i ≡ true
        → (commit_loop (suc i) es (pos i) s ≡ pos i)
          ⊎ Found s (suc i) es (commit_loop (suc i) es (pos i) s)
        → (commit_loop (suc i) es (pos i) s ≡ commit)
          ⊎ Found s i (e ∷ es) (commit_loop (suc i) es (pos i) s)
    first h (inl same) = inr (record {
      place = 0;
      entry = e;
      index = same ∙ ap pos (omega arith);
      here = refl;
      committable = subst (Committable s e) (omega arith) (test-Committable s e i h);
    })
    first h (inr f) = inr (shift (commit_loop (suc i) es (pos i) s) f)

commit_loop-grows :
    (s : Replica) (i : ℕ) (es : List LogEntry) (commit : ℤ)
    → commit <ℤ pos i
    → commit ≤ℤ commit_loop i es commit s
commit_loop-grows s i es commit below = go (commit_loop-Found s i es commit)
  where
    go :
        (commit_loop i es commit s ≡ commit) ⊎ Found s i es (commit_loop i es commit s)
        → commit ≤ℤ commit_loop i es commit s
    go (inl same) = rw same (omega arith)
    go (inr f) = rw f.index (omega int_laws)

commit_loop-last :
    (s : Replica) (i : ℕ) (es : List LogEntry) (commit : ℤ) (k : ℕ) (e : LogEntry)
    → get_elem? es k ≡ some e
    → Committable s e (i + k)
    → pos (i + k) ≤ℤ commit_loop i es commit s
unfolding commit_loop
commit_loop-last s i [] commit k e here fit = cc
commit_loop-last s i (x ∷ es) commit zero e here fit =
    let e' : x ≡ e = some-eq-some here in
    let z : i + 0 ≡ i = omega arith in
    rw (e', z)
      (rw (Committable-test s e i (subst (Committable s e) z fit))
        (commit_loop-grows s (suc i) es (pos i) (omega int_laws)))
commit_loop-last s i (x ∷ es) commit (suc k) e here fit =
    let z : i + suc k ≡ suc i + k = omega arith in
    rw z (commit_loop-last s (suc i) es _ k e here (subst (Committable s e) z fit))

-- What the leader may take for its new commit index: the old one, or the index of a committable entry
-- behind it; and none further on is committable.
pub record CommitChoice (s : Replica) (c : ℤ) : Type 0 where
  pub sound :
      (c ≡ s.commit_index)
      ⊎ ((s.commit_index <ℤ c)
          × (j : ℕ) × (e : LogEntry) × (c ≡ pos j)
          × (get_elem? s.logs.items j ≡ some e)
          × Committable s e j)
  pub last :
      (j : ℕ) (e : LogEntry)
      → s.commit_index <ℤ pos j
      → get_elem? s.logs.items j ≡ some e
      → Committable s e j
      → pos j ≤ℤ c

-- With a commit index that is at least -1 the loop reads no entry out of bounds and picks the last
-- entry of the leader's own term that more than half of the configuration hold, and never one that
-- is not; an entry of an earlier term is committed only with a later one of the current term.
pub leader_commit-choice :
    (s : Replica)
    → minus_one ≤ℤ s.commit_index
    → (c : ℤ) × (leader_commit s ≡ some c) × CommitChoice s c
unfolding leader_commit
leader_commit-choice s low =
    let (n, place) = inc-place s.commit_index low in
    let c = commit_loop n (drop n s.logs.items) s.commit_index s in
    (
      c,
      rw (place, leader_commit),
      record {
        sound = sound n place (commit_loop-Found s n (drop n s.logs.items) s.commit_index);
        last = last n place;
      },
    )
  where
    sound :
        (n : ℕ)
        → inc s.commit_index ≡ pos n
        → (commit_loop n (drop n s.logs.items) s.commit_index s ≡ s.commit_index)
          ⊎ Found s n (drop n s.logs.items) (commit_loop n (drop n s.logs.items) s.commit_index s)
        → let c = commit_loop n (drop n s.logs.items) s.commit_index s in
          (c ≡ s.commit_index)
          ⊎ ((s.commit_index <ℤ c)
              × (j : ℕ) × (e : LogEntry) × (c ≡ pos j)
              × (get_elem? s.logs.items j ≡ some e)
              × Committable s e j)
    sound n place (inl same) = inl same
    sound n place (inr f) = inr (
      rw f.index (omega (int_laws, inc-place_parts s.commit_index n place)),
      n + f.place,
      f.entry,
      f.index,
      sym (get_elem?-drop n f.place s.logs.items) ∙ f.here,
      f.committable,
    )

    last :
        (n : ℕ)
        → inc s.commit_index ≡ pos n
        → (j : ℕ) (e : LogEntry) → s.commit_index <ℤ pos j
        → get_elem? s.logs.items j ≡ some e
        → Committable s e j
        → pos j ≤ℤ commit_loop n (drop n s.logs.items) s.commit_index s
    last n place j e behind here fit =
        let from : n + (j - n) ≡ j = omega (int_laws, inc-place_parts s.commit_index n place) in
        let found : get_elem? (drop n s.logs.items) (j - n) ≡ some e =
          get_elem?-drop n (j - n) s.logs.items ∙ ap (get_elem? s.logs.items) from ∙ here in
        subst (λ (k : ℕ). pos k ≤ℤ commit_loop n (drop n s.logs.items) s.commit_index s) from
          (commit_loop-last s n (drop n s.logs.items) s.commit_index (j - n) e found
            (subst (Committable s e) (sym from) fit))
