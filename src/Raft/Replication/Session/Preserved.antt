-- ===== src/Raft/Replication/Session/Preserved.antt =====
-- What every step of a leader and its follower of ohmyraft/OhMyRaft.H keeps, and what `MatchIndex` says
-- after it.
use oh_my_db.Prelude.{
  ℕ, zero, suc, ◌+◌, ◌≤◌, ◌≡◌, refl, sym, ap, ◌∙◌, subst, inl, inr, ℤ, pos, minus_one, find,
  find-insert, ==ℤ_refl, some, some-eq-some, List, [], ◌∷◌, map, length, take_all, drop, get_elem?,
  dec, plus, arith, Option-cases,
}
use oh_my_db.Consensus.{Operation, LogEntry, AppendEntriesParams, leader}
use oh_my_db.Raft.{Replica}
use oh_my_db.Raft.Leader.{entries_from, append_args, next_of, handle_append_reply, term_before}
use oh_my_db.Raft.Replication.{request, append_args-request}
use oh_my_db.Raft.Replication.Logs.{get_elem?-lt, AllOf}
use oh_my_db.Raft.Replication.Session.{Reply, Session, Among, first, later}
use oh_my_db.Raft.Replication.Session.Kept.{match_index-raft_round, handle_append_reply-kept}
use oh_my_db.Raft.Replication.Session.Matched.{AgreesAt, IsPiece, Sound, Sound-grows, Sound-files}
use oh_my_db.Raft.Threads.{raft_round, submit, needs_leader}
use oh_my_db.Raft.Threads.Rounds.{entry_in, raft_round-logs_inputs}

-- What holds of one, and of all among some, holds of all among them together.
pub among_both :
    {A : Type 0} (P : A → Type 0) (b : A) (xs : List A)
    → P b
    → ((a : A) → Among a xs → P a)
    → (a : A) → Among a (b ∷ xs)
    → P a
among_both P b xs p ps a first = p
among_both P b xs p ps a (later m) = ps a m

pub AgreesAt-minus_one : (fs ls : List LogEntry) → AgreesAt minus_one fs ls
unfolding dec
AgreesAt-minus_one fs ls = record { k = 0; index = refl; held = omega arith; agree = refl }

AllOf-entries : (term : ℤ) (ops : List Operation) → AllOf term (map (entry_in term) ops)
AllOf-entries term [] = tt
AllOf-entries term (op ∷ ops) = (refl, AllOf-entries term ops)

pub logs-submit :
    (op : Operation) (s : Replica)
    → ((submit op s).0.logs ≡ s.logs)
      × ((submit op s).0.peers ≡ s.peers)
      × ((submit op s).0.match_index ≡ s.match_index)
unfolding submit needs_leader
logs-submit op s = ground arith

module _ (peer saved : ℤ) (s : Session) (h : Sound peer saved s) where
  pub Sound-submit : (op : Operation) → Sound peer saved (record s { l = (submit op s.l).0 })
  Sound-submit op =
      let (log, peers, filed) = logs-submit op s.l in
      Sound-files peer saved s (submit op s.l).0 log
        (λ i e. h.filed i (ap (find peer) (sym filed) ∙ e)) h

  pub Sound-round :
      s.l.current_term ≡ saved → Sound peer saved (record s { l = raft_round leader s.l })
  Sound-round term =
      Sound-grows peer saved s (raft_round leader s.l) (map (entry_in saved) s.l.dispatch_out)
        (rw (sym term) (raft_round-logs_inputs s.l).0) (AllOf-entries saved s.l.dispatch_out)
        (λ i e. elim (match_index-raft_round peer s.l i e) [
          | inl m ↦
              subst (λ j. AgreesAt j s.f.logs.items s.l.logs.items) (sym m)
                (AgreesAt-minus_one s.f.logs.items s.l.logs.items)
          | inr old ↦ h.filed i old
        ])
        h

  pub Sound-reply :
      (now : ℕ) (r : Reply) (t : Replica)
      → Among r s.replies
      → handle_append_reply now peer saved (pos r.next) r.count r.ret s.l ≡ some t
      → Sound peer saved (record s { l = t })
  unfolding plus
  Sound-reply now r t a run =
      let (log, peers, filed) =
        handle_append_reply-kept now peer saved (pos r.next) r.count r.ret s.l t run in
      Sound-files peer saved s t log
        (λ i e. elim filed [
          | inl old ↦ h.filed i (ap (find peer) (sym old) ∙ e)
          | inr (ok, new) ↦
              let (held, agree) = h.honest r a ok in
              let index : i ≡ dec (pos (r.next + r.count)) = some-eq-some (
                sym e
                ∙ ap (find peer) new
                ∙ find-insert peer peer (dec (plus (pos r.next) r.count)) s.l.match_index
                ∙ rw (==ℤ_refl peer) refl) in
              record { k = r.next + r.count; index = index; held = held; agree = agree }
        ])
        h

pub term_before-fits :
    (n : ℕ) (ls : List LogEntry) (pt : ℤ) → term_before (dec (pos n)) ls ≡ some pt → n ≤ length ls
unfolding term_before dec
term_before-fits zero ls pt h = omega arith
term_before-fits (suc n) ls pt h = elim (Option-cases (get_elem? ls n)) [
  | inl e ↦ absurd (ground (arith, e))
  | inr (x, e) ↦ omega (arith, get_elem?-lt ls n x e)
]

request-IsPiece :
    (saved peer : ℤ) (l : Replica) (n : ℕ) (next : next_of peer l ≡ pos n)
    (args : AppendEntriesParams)
    → append_args saved peer l ≡ some args
    → IsPiece (record { next = n; args = args }) l.logs.items
unfolding request
request-IsPiece saved peer l n next args sent =
    let (pt, before, same) = append_args-request saved peer l n next args sent in
    record {
      k = length l.logs.items;
      order = term_before-fits n l.logs.items pt before;
      held = omega arith;
      before = rw same before;
      prev = rw same refl;
      entries = rw same (
          ap (λ ts. entries_from n (drop n ts))
            (sym (take_all (length l.logs.items) l.logs.items (omega arith))));
    }

pub Sound-request :
    (peer saved : ℤ) (s : Session) (n : ℕ) (args : AppendEntriesParams)
    → next_of peer s.l ≡ pos n
    → append_args saved peer s.l ≡ some args
    → Sound peer saved s
    → Sound peer saved (record s { requests = record { next = n; args = args } ∷ s.requests })
Sound-request peer saved s n args next sent h = record {
  link = h.link;
  steady = h.steady;
  pieces =
      among_both (λ m. IsPiece m s.l.logs.items) _ s.requests
        (request-IsPiece saved peer s.l n next args sent) h.pieces;
  honest = h.honest;
  filed = h.filed;
}
