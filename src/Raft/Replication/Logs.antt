-- ===== src/Raft/Replication/Logs.antt =====
-- A leader's log and a follower's of ohmyraft/OhMyRaft.H, while the leader's grows and the follower
-- takes in pieces of it.
use oh_my_db.Prelude.{
  ℕ, zero, suc, ◌-◌, ◌≤◌, ◌<◌, ◌≡◌, refl, sym, ap, ◌∙◌, subst, inl, inr, ◌⊎◌, ℤ, true, some, List,
  [], ◌∷◌, ◌++◌, length, length-append, length-take, length-drop, length-map, take, take-take,
  take-append_le, take-append-drop, map-take, drop, drop-take, get_elem?, leb, ◌==ℤ◌, ==ℤ_iff,
  arith, Bool-cases,
}
use oh_my_db.Consensus.{LogEntry, AppendLogEntry}
use oh_my_db.Raft.Append.{strip}
use oh_my_db.Raft.Append.Entries.{to_entry}
use oh_my_db.Raft.Append.Overlay.{overlay}
use oh_my_db.Raft.Leader.{entries_from}
use oh_my_db.Raft.Replication.{stripped, LogMatching, overlaid-stripped, length-entries_from}

-- The logs agree on their first `k` entries, up to the promises.
abbrev pub Agree : ℕ → List LogEntry → List LogEntry → Type 0
Agree k fs ls = stripped (take k fs) ≡ stripped (take k ls)

-- The follower has no entry of the leader's term past the end of the leader's log.
abbrev pub Inside : ℤ → List LogEntry → List LogEntry → Type 0
Inside term fs ls = (i : ℕ) (e : LogEntry) → get_elem? fs i ≡ some e → e.term ≡ term → i < length ls

-- What is kept of the two logs, whatever is sent.
pub record Linked (term : ℤ) (fs ls : List LogEntry) : Type 0 where
  pub matching : LogMatching fs ls
  pub inside : Inside term fs ls

pub Agree-less : (j k : ℕ) (fs ls : List LogEntry) → j ≤ k → Agree k fs ls → Agree j fs ls
Agree-less j k fs ls le h =
    ap stripped (sym (take-take j k fs le))
    ∙ map-take strip j (take k fs)
    ∙ ap (take j) h
    ∙ sym (map-take strip j (take k ls))
    ∙ ap stripped (take-take j k ls le)

pub Agree-grows :
    (k : ℕ) (fs ls new : List LogEntry) → k ≤ length ls → Agree k fs ls → Agree k fs (ls ++ new)
Agree-grows k fs ls new le h = h ∙ ap stripped (sym (take-append_le k ls new le))

pub get_elem?-lt :
    (xs : List LogEntry) (i : ℕ) (x : LogEntry) → get_elem? xs i ≡ some x → i < length xs
get_elem?-lt [] i x h = absurd (ground (arith, h))
get_elem?-lt (y ∷ ys) zero x h = omega arith
get_elem?-lt (y ∷ ys) (suc i) x h = omega (arith, get_elem?-lt ys i x h)

-- Entry `i` of two logs together is one of the first, or an entry of the second.
get_elem?-split :
    (xs ys : List LogEntry) (i : ℕ) (x : LogEntry)
    → get_elem? (xs ++ ys) i ≡ some x
    → ((i < length xs) × (get_elem? xs i ≡ some x))
      ⊎ ((j : ℕ) × (get_elem? ys j ≡ some x) × (length xs ≤ i))
get_elem?-split [] ys i x h = inr (i, h, omega arith)
get_elem?-split (y ∷ xs) ys zero x h = inl (omega arith, h)
get_elem?-split (y ∷ xs) ys (suc i) x h = elim (get_elem?-split xs ys i x h) [
  | inl (lt, k) ↦ inl (omega arith, k)
  | inr (j, k, le) ↦ inr (j, k, omega arith)
]

-- Entries that are all of one term.
abbrev pub AllOf : ℤ → List LogEntry → Type 0
AllOf term [] = Unit
AllOf term (e ∷ es) = (e.term ≡ term) × AllOf term es

AllOf-get :
    (term : ℤ) (es : List LogEntry) (j : ℕ) (e : LogEntry)
    → AllOf term es
    → get_elem? es j ≡ some e
    → e.term ≡ term
AllOf-get term [] j e h k = absurd (ground (arith, k))
AllOf-get term (x ∷ es) zero e h k = cc (h.0, k)
AllOf-get term (x ∷ es) (suc j) e h k = AllOf-get term es j e h.1 k

-- The leader's log grows by entries of its own term.
pub Linked-grows :
    (term : ℤ) (fs ls new : List LogEntry)
    → AllOf term new
    → Linked term fs ls
    → Linked term fs (ls ++ new)
Linked-grows term fs ls new own h = record {
  matching = λ i e e' p q r. elim (get_elem?-split ls new i e' q) [
    | inl (lt, q') ↦ Agree-grows (suc i) fs ls new (omega arith) (h.matching i e e' p q' r)
    | inr (j, q', le) ↦
        let lt = h.inside i e p (r ∙ AllOf-get term new j e' own q') in absurd (omega arith)
  ];
  inside = λ i e p t. omega (arith, h.inside i e p t, length-append ls new);
}

-- A log over which the entries that it has already come again stays as it is.
overlay_same :
    (i : ℕ) (fs ls : List LogEntry)
    → stripped (take (length ls) fs) ≡ stripped ls
    → overlay fs (entries_from i ls) ≡ fs
unfolding entries_from overlay strip
overlay_same i [] [] h = refl
overlay_same i (f ∷ fs) [] h = refl
overlay_same i [] (l ∷ ls) h = absurd (ground (arith, h))
overlay_same i (f ∷ fs) (l ∷ ls) h =
    let first : strip f ≡ strip l = cc h in
    let later : stripped (take (length ls) fs) ≡ stripped ls = cc h in
    let same : (f.term ==ℤ l.term) ≡ true = (==ℤ_iff f.term l.term).1 (ap (λ e. e.term) first) in
    rw same (ap (◌∷◌ f) (overlay_same (suc i) fs ls later))

-- Where the new entries change the log, they end it.
overlay-ends :
    (fs : List LogEntry) (es : List AppendLogEntry)
    → (overlay fs es ≡ fs) ⊎ (length (overlay fs es) ≡ length es)
unfolding overlay
overlay-ends fs [] = inl refl
overlay-ends [] (e ∷ es) = inr (length-map (e ∷ es) to_entry)
overlay-ends (f ∷ fs) (e ∷ es) = elim (Bool-cases (f.term ==ℤ e.term)) [
  | inl h ↦ rw h (elim (overlay-ends fs es) [ inl k ↦ inl (ap (◌∷◌ f) k) | inr k ↦ inr (ap suc k) ])
  | inr h ↦ rw h (inr (length-map (e ∷ es) to_entry))
]

get_elem?-take :
    (k i : ℕ) (xs : List LogEntry) (x : LogEntry)
    → get_elem? (take k xs) i ≡ some x
    → (i < k) × (get_elem? xs i ≡ some x)
get_elem?-take zero i xs x h = absurd (ground (arith, h))
get_elem?-take (suc k) i [] x h = absurd (ground (arith, h))
get_elem?-take (suc k) zero (y ∷ xs) x h = (omega arith, h)
get_elem?-take (suc k) (suc i) (y ∷ xs) x h =
    let (lt, e) = get_elem?-take k i xs x h in (omega arith, e)

stripped-drop : (n : ℕ) (xs : List LogEntry) → stripped (drop n xs) ≡ drop n (stripped xs)
stripped-drop zero xs = refl
stripped-drop (suc n) [] = refl
stripped-drop (suc n) (x ∷ xs) = stripped-drop n xs

-- A piece of the leader's log: the entries `n`, …, `k - 1`.
abbrev pub piece : ℕ → ℕ → List LogEntry → List AppendLogEntry
piece n k ls = entries_from n (drop n (take k ls))

-- The follower's log after it took in the piece.
abbrev pub with_piece : ℕ → ℕ → List LogEntry → List LogEntry → List LogEntry
with_piece n k fs ls = take n fs ++ overlay (drop n fs) (piece n k ls)

module _ (term : ℤ) (n k : ℕ) (fs ls : List LogEntry) (n≤k : n ≤ k) (k≤ls : k ≤ length ls)
    (before : Agree n fs ls) (link : Linked term fs ls) where
  length_front : length (take k ls) ≡ k
  length_front = omega (arith, length-take k ls)

  before_front : stripped (take n fs) ≡ stripped (take n (take k ls))
  before_front = before ∙ ap stripped (sym (take-take n k ls n≤k))

  front_matching : LogMatching fs (take k ls)
  front_matching i e e' p q r =
      let (lt, q') = get_elem?-take k i ls e' q in
      link.matching i e e' p q' r ∙ ap stripped (sym (take-take (suc i) k ls (omega arith)))

  -- The piece brings the follower up to `k`.
  pub with_piece-Agree : Agree k (with_piece n k fs ls) ls
  with_piece-Agree =
      ap (λ m. stripped (take m (with_piece n k fs ls))) (sym length_front)
      ∙ overlaid-stripped n fs (take k ls) (omega (arith, length_front)) before_front front_matching

  -- A log that has the piece already stays as it is.
  with_piece_same : Agree k fs ls → with_piece n k fs ls ≡ fs
  with_piece_same h =
      let count : length (drop n (take k ls)) ≡ k - n =
        omega (arith, length-drop n (take k ls), length_front) in
      let known : stripped (take (k - n) (drop n fs)) ≡ stripped (drop n (take k ls)) =
        ap stripped (sym (drop-take n k fs))
        ∙ stripped-drop n (take k fs)
        ∙ ap (drop n) h
        ∙ sym (stripped-drop n (take k ls)) in
      ap (λ ts. take n fs ++ ts)
        (overlay_same n (drop n fs) (drop n (take k ls))
          (ap (λ m. stripped (take m (drop n fs))) count ∙ known))
      ∙ take-append-drop n fs

  length_before : length (take n fs) ≡ n
  length_before =
      let lengths : length (take n fs) ≡ length (take n ls) =
        sym (length-map (take n fs) strip) ∙ ap length before ∙ length-map (take n ls) strip in
      omega (arith, length-take n ls)

  pub length-piece : length (piece n k ls) ≡ k - n
  length-piece =
      length-entries_from n (drop n (take k ls))
      ∙ omega (arith, length-drop n (take k ls), length_front)

  with_piece-ends : (with_piece n k fs ls ≡ fs) ⊎ (length (with_piece n k fs ls) ≡ k)
  with_piece-ends = elim (overlay-ends (drop n fs) (piece n k ls)) [
    | inl e ↦ inl (ap (λ ts. take n fs ++ ts) e ∙ take-append-drop n fs)
    | inr e ↦ inr (
        length-append (take n fs) (overlay (drop n fs) (piece n k ls))
        ∙ omega (arith, length_before, e, length-piece))
  ]

  -- Agreement further on is kept, also by an old piece.
  pub with_piece-keeps : (j : ℕ) → Agree j fs ls → Agree j (with_piece n k fs ls) ls
  with_piece-keeps j h = elim (Bool-cases (leb j k)) [
    | inl le ↦ Agree-less j k (with_piece n k fs ls) ls (ground arith) with_piece-Agree
    | inr gt ↦
        let has : Agree k fs ls = Agree-less k j fs ls (ground arith) h in
        subst (λ ts. Agree j ts ls) (sym (with_piece_same has)) h
  ]

  pub with_piece-Linked : Linked term (with_piece n k fs ls) ls
  with_piece-Linked = elim with_piece-ends [
    | inl e ↦ subst (λ ts. Linked term ts ls) (sym e) link
    | inr e ↦ record {
      matching = λ i x y p q r.
          Agree-less (suc i) k (with_piece n k fs ls) ls
            (omega (arith, get_elem?-lt (with_piece n k fs ls) i x p)) with_piece-Agree;
      inside = λ i x p t. omega (arith, get_elem?-lt (with_piece n k fs ls) i x p);
    }
  ]
