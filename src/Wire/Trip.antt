-- ===== src/Wire/Trip.antt =====
-- Requests and replies of ohmyserver/RaftServiceImpl.C, there and back.
use oh_my_db.Prelude.{
  ℕ, zero, suc, ◌≡◌, refl, ap, inl, inr, ℤ, pos, negsuc, Bool, true, false, Option, none, some,
  List, [], ◌∷◌, map, ◌>>=◌, drop, ◌==ℤ◌, if◌then◌else◌, Option-cases, >>=-eq-some, some-eq-some,
}
use oh_my_db.Consensus.{
  ServerInfo, OpKind, get, put, add_server, remove_server, unknown, without_promise, LogEntry,
  AppendLogEntry, AppendEntriesParams, RequestVoteParams,
}
use oh_my_db.Raft.{Replica, Router}
use oh_my_db.Raft.Append.{append_entries}
use oh_my_db.Raft.Vote.{request_vote}
use oh_my_db.Raft.Leader.{entries_from, entries_at, append_args, next_of, term_before}
use oh_my_db.Wire.{
  kind_number, first_arg, second_arg, info_arg, pack, unpack_kind, unpack, AppendEntriesRequest,
  Response, append_request, append_params, to_int, to_bool, serve_append, serve_vote, send_append,
  route_append, send_vote, route_vote,
}

-- The kinds that have an enumerator.
abbrev pub IsKnown : OpKind → Type 0
IsKnown (unknown _ _) = ⊥
IsKnown _ = Unit

abbrev pub AllKnown : List LogEntry → Type 0
AllKnown [] = Unit
AllKnown (e ∷ es) = IsKnown e.op.kind × AllKnown es

kind-trip :
    (junk : ServerInfo) (term index : ℤ) (h : Option ℕ) (k : OpKind)
    → IsKnown k
    → unpack_kind (
        pack junk
          (record { term = term; index = index; op = record { kind = k; promise_handle = h } }))
      ≡ k
unfolding unpack_kind pack kind_number first_arg second_arg info_arg ◌==ℤ◌
kind-trip junk term index h (get key) known = refl
kind-trip junk term index h (put key val) known = refl
kind-trip junk term index h (add_server info) known = refl
kind-trip junk term index h (remove_server server_id) known = refl
kind-trip junk term index h (unknown kind arg) known = absurd known

unpack-pack :
    (junk : ServerInfo) (e : AppendLogEntry)
    → IsKnown e.op.kind
    → unpack (pack junk e) ≡ record e { op = without_promise e.op }
unfolding unpack pack without_promise
unpack-pack junk e known =
    ap
      (λ k. record {
        term = e.term;
        index = e.index;
        op = record { kind = k; promise_handle = none };
      })
      (kind-trip junk e.term e.index e.op.promise_handle e.op.kind known)

entries-trip :
    (junk : ServerInfo) (i : ℕ) (es : List LogEntry)
    → AllKnown es
    → map unpack (map (pack junk) (entries_from i es)) ≡ entries_from i es
unfolding entries_from without_promise
entries-trip junk i [] known = refl
entries-trip junk i (e ∷ es) known = cc (
  unpack-pack junk (record { term = e.term; index = pos i; op = without_promise e.op }) known.0,
  entries-trip junk (suc i) es known.1,
)

AllKnown-drop : (n : ℕ) (es : List LogEntry) → AllKnown es → AllKnown (drop n es)
AllKnown-drop zero es known = known
AllKnown-drop (suc n) [] known = known
AllKnown-drop (suc n) (e ∷ es) known = AllKnown-drop n es known.1

entries_at-trip :
    (junk : ServerInfo) (i : ℤ) (es : List LogEntry)
    → AllKnown es
    → map unpack (map (pack junk) (entries_at i es)) ≡ entries_at i es
unfolding entries_at
entries_at-trip junk (pos n) es known = entries-trip junk n (drop n es) (AllKnown-drop n es known)
entries_at-trip junk (negsuc n) es known = refl

-- What the leader sends a peer for `AppendEntries` is what the peer's handler is given, whatever the
-- memory held that was never written, if every operation of the leader's log has an enumerator.
pub append_params-append_request :
    (junk : ServerInfo) (saved peer : ℤ) (l : Replica) (args : AppendEntriesParams)
    → AllKnown l.logs.items
    → append_args saved peer l ≡ some args
    → append_params (append_request junk args) ≡ args
unfolding append_params append_request append_args
append_params-append_request junk saved peer l args known sent =
    let (pt, before, rest) = >>=-eq-some (term_before _ l.logs.items) _ sent in
    rw (← some-eq-some rest) (rw (entries_at-trip junk (next_of peer l) l.logs.items known) refl)

to_bool-to_int : (b : Bool) → to_bool (to_int b) ≡ b
unfolding to_bool to_int ◌==ℤ◌
to_bool-to_int true = refl
to_bool-to_int false = refl

-- What a leader hears from a peer in the state `f`.
abbrev pub peer_response : ℕ → Replica → AppendEntriesRequest → Option Response
peer_response now f request = do (u, response) ← serve_append now request f; some response

-- The leader's own parameters reach the handler of the peer, whatever the memory held that was never
-- written, and leave it in the state that the handler leaves; over a route that is enabled the leader gets
-- the handler's reply, and over one that is disabled it gets none: for parameters that the leader builds,
-- from a log of which every operation has an enumerator.
pub route_append-direct :
    (junk : ServerInfo) (router : Router) (now : ℕ) (saved peer : ℤ) (l f : Replica)
    (args : AppendEntriesParams)
    → AllKnown l.logs.items
    → append_args saved peer l ≡ some args
    → (append_params (append_request junk args) ≡ args)
      × ((do (t, response) ← serve_append now (append_request junk args) f; some t)
          ≡ (do (t, r) ← append_entries now args f; some t))
      × (route_append (peer_response now f) router junk args
          ≡ (if router.is_enabled then (do (t, r) ← append_entries now args f; some r) else none))
unfolding route_append send_append serve_append
route_append-direct junk router now saved peer l f args known sent =
    let same = append_params-append_request junk saved peer l args known sent in
    (
      same,
      rw same (elim (Option-cases (append_entries now args f)) [
        | inl e ↦ rw e refl
        | inr ((t, r), e) ↦ rw e refl
      ]),
      rw same (elim (Option-cases (append_entries now args f)) [
        | inl e ↦ rw e refl
        | inr ((t, r), e) ↦ rw e (rw (to_bool-to_int r.success) refl)
      ]),
    )

-- For votes: an enabled route hands on the handler's reply.
pub route_vote-direct :
    (router : Router) (now : ℕ) (args : RequestVoteParams) (f : Replica)
    → route_vote (λ request. some (serve_vote now request f).1) router args
      ≡ (if router.is_enabled then some (request_vote now args f).1 else none)
unfolding route_vote send_vote serve_vote
route_vote-direct router now args f =
    rw (to_bool-to_int (request_vote now args f).1.vote_granted) refl
