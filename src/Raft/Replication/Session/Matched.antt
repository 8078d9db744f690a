-- ===== src/Raft/Replication/Session/Matched.antt =====
-- What `MatchIndex` of a leader of ohmyraft/OhMyRaft.H says of its follower, over a whole term.
use oh_my_db.Prelude.{
  ℕ, zero, suc, ◌+◌, ◌≤◌, ◌≡◌, sym, ap, ◌∙◌, inl, inr, ℤ, pos, find, true, some, List, [], ◌∷◌,
  ◌++◌, length, length-append, take-append_le, drop, append-nil, Option-cases, get_elem?, dec,
  arith,
}
use oh_my_db.Consensus.{LogEntry}
use oh_my_db.Raft.{Replica}
use oh_my_db.Raft.Leader.{entries_from, term_before}
use oh_my_db.Raft.Machine.Steady.{InStep}
use oh_my_db.Raft.Replication.Logs.{Agree, Linked, AllOf, Agree-grows, Linked-grows, piece}
use oh_my_db.Raft.Replication.Session.{Request, Reply, Session, Among}

-- The index is that of entry `k - 1`, and the logs agree up to it.
pub record AgreesAt (i : ℤ) (fs ls : List LogEntry) : Type 0 where
  pub k : ℕ
  pub index : i ≡ dec (pos k)
  pub held : k ≤ length ls
  pub agree : Agree k fs ls

-- A request carries a piece of the leader's log.
pub record IsPiece (m : Request) (ls : List LogEntry) : Type 0 where
  pub k : ℕ
  pub order : m.next ≤ k
  pub held : k ≤ length ls
  pub before : term_before (dec (pos m.next)) ls ≡ some m.args.prev_log_term
  pub prev : m.args.prev_log_index ≡ dec (pos m.next)
  pub entries : m.args.entries ≡ piece m.next k ls

-- A reply that is a success says that the logs agree up to the end of its request.
abbrev pub IsHonest : Reply → List LogEntry → List LogEntry → Type 0
IsHonest h fs ls =
    h.ret.success ≡ true → (h.next + h.count ≤ length ls) × Agree (h.next + h.count) fs ls

-- What every step keeps.
pub record Sound (peer saved : ℤ) (s : Session) : Type 0 where
  pub link : Linked saved s.f.logs.items s.l.logs.items
  pub steady : InStep s.f
  pub pieces : (m : Request) → Among m s.requests → IsPiece m s.l.logs.items
  pub honest : (h : Reply) → Among h s.replies → IsHonest h s.f.logs.items s.l.logs.items
  pub filed :
      (i : ℤ) → find peer s.l.match_index ≡ some i → AgreesAt i s.f.logs.items s.l.logs.items

get_elem?-grows :
    (i : ℕ) (xs ys : List LogEntry) (x : LogEntry)
    → get_elem? xs i ≡ some x
    → get_elem? (xs ++ ys) i ≡ some x
get_elem?-grows i [] ys x h = absurd (ground (arith, h))
get_elem?-grows zero (y ∷ xs) ys x h = h
get_elem?-grows (suc i) (y ∷ xs) ys x h = get_elem?-grows i xs ys x h

term_before-grows :
    (n : ℕ) (ls new : List LogEntry) (pt : ℤ)
    → term_before (dec (pos n)) ls ≡ some pt
    → term_before (dec (pos n)) (ls ++ new) ≡ some pt
unfolding term_before dec
term_before-grows zero ls new pt h = h
term_before-grows (suc n) ls new pt h = elim (Option-cases (get_elem? ls n)) [
  | inl e ↦ absurd (ground (arith, e))
  | inr (x, e) ↦ rw (get_elem?-grows n ls new x e, term_before) (rw (e, term_before) at h)
]

IsPiece-grows : (m : Request) (ls new : List LogEntry) → IsPiece m ls → IsPiece m (ls ++ new)
IsPiece-grows m ls new p = record {
  k = p.k;
  order = p.order;
  held = omega (arith, p.held, length-append ls new);
  before = term_before-grows m.next ls new m.args.prev_log_term p.before;
  prev = p.prev;
  entries =
      p.entries
      ∙ ap (λ ts. entries_from m.next (drop m.next ts)) (sym (take-append_le p.k ls new p.held));
}

AgreesAt-grows : (i : ℤ) (fs ls new : List LogEntry) → AgreesAt i fs ls → AgreesAt i fs (ls ++ new)
AgreesAt-grows i fs ls new a = record {
  k = a.k;
  index = a.index;
  held = omega (arith, a.held, length-append ls new);
  agree = Agree-grows a.k fs ls new a.held a.agree;
}

IsHonest-grows :
    (h : Reply) (fs ls new : List LogEntry) → IsHonest h fs ls → IsHonest h fs (ls ++ new)
IsHonest-grows h fs ls new a ok =
    let (held, agree) = a ok in
    (omega (arith, length-append ls new), Agree-grows (h.next + h.count) fs ls new held agree)

-- The leader's log grows by entries of its term, and what it files agrees with the follower.
pub Sound-grows :
    (peer saved : ℤ) (s : Session) (t : Replica) (new : List LogEntry)
    → t.logs.items ≡ s.l.logs.items ++ new
    → AllOf saved new
    → ((i : ℤ) → find peer t.match_index ≡ some i → AgreesAt i s.f.logs.items s.l.logs.items)
    → Sound peer saved s
    → Sound peer saved (record s { l = t })
Sound-grows peer saved s t new log own filed h = record {
  link = rw log (Linked-grows saved s.f.logs.items s.l.logs.items new own h.link);
  steady = h.steady;
  pieces = λ m a. rw log (IsPiece-grows m s.l.logs.items new (h.pieces m a));
  honest = λ r a. rw log (IsHonest-grows r s.f.logs.items s.l.logs.items new (h.honest r a));
  filed = λ i a. rw log (AgreesAt-grows i s.f.logs.items s.l.logs.items new (filed i a));
}

-- The same for a log that stays as it is.
pub Sound-files :
    (peer saved : ℤ) (s : Session) (t : Replica)
    → t.logs ≡ s.l.logs
    → ((i : ℤ) → find peer t.match_index ≡ some i → AgreesAt i s.f.logs.items s.l.logs.items)
    → Sound peer saved s
    → Sound peer saved (record s { l = t })
Sound-files peer saved s t log filed h =
    Sound-grows peer saved s t [] (ap (λ v. v.items) log ∙ sym (append-nil s.l.logs.items)) tt filed
      h
