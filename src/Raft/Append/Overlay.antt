-- ===== src/Raft/Append/Overlay.antt =====
-- The log that `AppendEntries` of ohmyraft/OhMyRaft.H leaves, and a plain description of it.
use oh_my_db.Prelude.{
  ℕ, ◌≡◌, refl, sym, ap, inl, inr, ℤ, List, [], ◌∷◌, ◌++◌, map, append_assoc, length, take, drop,
  take-add, take-append-drop, ◌==ℤ◌, ==ℤ_iff, ltb, arith, Bool-cases, if◌then◌else◌,
}
use oh_my_db.Consensus.{LogEntry, AppendLogEntry}
use oh_my_db.Raft.{Replica}
use oh_my_db.Raft.Append.{strip, match_count, accept_entries}
use oh_my_db.Raft.Append.Entries.{to_entry, merge_log, items-accept_entries}

-- New entries over the tail of a log: as long as the terms agree the log's own entries stay, from
-- the first difference on the new ones replace all that is left; a log that is longer keeps its end.
unfoldable pub overlay : List LogEntry → List AppendLogEntry → List LogEntry
overlay ls [] = ls
overlay [] (e ∷ es) = map to_entry (e ∷ es)
overlay (l ∷ ls) (e ∷ es) =
    let rest = overlay ls es in if l.term ==ℤ e.term then l ∷ rest else map to_entry (e ∷ es)

abbrev pub terms : List LogEntry → List ℤ
terms = map (λ e. e.term)

abbrev pub new_terms : List AppendLogEntry → List ℤ
new_terms = map (λ e. e.term)

merge_tail : List LogEntry → List AppendLogEntry → List LogEntry
merge_tail ls es =
    let matched = match_count ls es in
    if ltb matched (length es) then take matched ls ++ map to_entry (drop matched es) else ls

merge_tail-eq-overlay :
    (ls : List LogEntry) (es : List AppendLogEntry) → merge_tail ls es ≡ overlay ls es
unfolding merge_tail match_count overlay
merge_tail-eq-overlay [] [] = refl
merge_tail-eq-overlay (l ∷ ls) [] = refl
merge_tail-eq-overlay [] (e ∷ es) = ground arith
merge_tail-eq-overlay (l ∷ ls) (e ∷ es) = elim (Bool-cases (l.term ==ℤ e.term)) [
  | inr h ↦ rw h (ground arith)
  | inl h ↦ rw h (ground (arith, merge_tail-eq-overlay ls es))
]

-- The log after `accept_entries` at place `at` is the log before `at`, then the new entries over the
-- rest: entries of the old log stay exactly as far as the terms agree.
pub items-accept_entries-overlay :
    (at : ℕ) (entries : List AppendLogEntry) (s : Replica)
    → (accept_entries at entries s).logs.items
      ≡ take at s.logs.items ++ overlay (drop at s.logs.items) entries
unfolding merge_log merge_tail
items-accept_entries-overlay at entries s =
    let matched = match_count (drop at s.logs.items) entries in
    rw items-accept_entries (
      rw (← merge_tail-eq-overlay (drop at s.logs.items) entries)
        (elim (Bool-cases (ltb matched (length entries))) [
          | inl m ↦ rw m (
              rw take-add (
                append_assoc (take at s.logs.items) (take matched (drop at s.logs.items))
                  (map to_entry (drop matched entries))))
          | inr m ↦ rw m (sym (take-append-drop at s.logs.items))
        ]))

take-to_entry : (es : List AppendLogEntry) → take (length es) (map to_entry es) ≡ map to_entry es
take-to_entry [] = refl
take-to_entry (e ∷ es) = ap (λ ls. to_entry e ∷ ls) (take-to_entry es)

terms-to_entry : (es : List AppendLogEntry) → terms (map to_entry es) ≡ new_terms es
terms-to_entry [] = refl
terms-to_entry (e ∷ es) = ap (λ ts. e.term ∷ ts) (terms-to_entry es)

fresh-terms : (es : List AppendLogEntry) → terms (take (length es) (map to_entry es)) ≡ new_terms es
fresh-terms es = rw (take-to_entry es) (terms-to_entry es)

-- The overlaid tail begins with the terms of the new entries, in their order.
pub overlay-terms :
    (ls : List LogEntry) (es : List AppendLogEntry)
    → terms (take (length es) (overlay ls es)) ≡ new_terms es
unfolding overlay
overlay-terms ls [] = refl
overlay-terms [] (e ∷ es) = fresh-terms (e ∷ es)
overlay-terms (l ∷ ls) (e ∷ es) = elim (Bool-cases (l.term ==ℤ e.term)) [
  | inr h ↦ rw h (fresh-terms (e ∷ es))
  | inl h ↦ rw h (ground (arith, overlay-terms ls es, ==ℤ_iff l.term e.term))
]

-- Raft's log matching, for two tails that begin at one index: while the terms agree, so do the
-- operations. Promises belong to one process and are left out.
abbrev pub Matching : List LogEntry → List AppendLogEntry → Type 0
Matching [] es = Unit
Matching (l ∷ ls) [] = Unit
Matching (l ∷ ls) (e ∷ es) = l.term ≡ e.term → (strip l ≡ strip (to_entry e)) × Matching ls es

abbrev pub shipped : List AppendLogEntry → List LogEntry
shipped = map (λ e. strip (to_entry e))

fresh-shipped :
    (es : List AppendLogEntry) → map strip (take (length es) (map to_entry es)) ≡ shipped es
fresh-shipped [] = refl
fresh-shipped (e ∷ es) = ap (λ ls. strip (to_entry e) ∷ ls) (fresh-shipped es)

-- Under log matching the overlaid tail begins with the entries that were sent.
pub overlay-shipped :
    (ls : List LogEntry) (es : List AppendLogEntry)
    → Matching ls es
    → map strip (take (length es) (overlay ls es)) ≡ shipped es
unfolding overlay
overlay-shipped [] [] m = refl
overlay-shipped (l ∷ ls) [] m = refl
overlay-shipped [] (e ∷ es) m = fresh-shipped (e ∷ es)
overlay-shipped (l ∷ ls) (e ∷ es) m = elim (Bool-cases (l.term ==ℤ e.term)) [
  | inr h ↦ rw h (fresh-shipped (e ∷ es))
  | inl h ↦
      let both = m ((==ℤ_iff l.term e.term).0 h) in rw h (cc (both.0, overlay-shipped ls es both.1))
]
