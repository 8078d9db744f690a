-- ===== src/Raft/Durable.antt =====
-- The files of `PersistentStore` against the term and the vote of ohmyraft/OhMyRaft.H.
pub mod Append
pub mod Log
pub mod Machine
pub mod Events
pub mod Lives
use oh_my_db.Prelude.{
  ℕ, ◌≡◌, refl, ap, ◌∙◌, inl, inr, ℤ, pos, minus_one, Bool, true, false, Option, none, some, List,
  [], ◌∷◌, contains, ltb_ℤ, leb_ℤ, ◌==ℤ◌, ◌&&◌, ltb, ◌-◌, ◌+◌, min_ℤ, last_index, IfSome,
  IfSome-some, IfSome-bind, length, drop, inc, negsuc, arith, Bool-cases, if◌then◌else◌, subst, sym,
}
use oh_my_db.Consensus.{
  OpKind, get, put, add_server, remove_server, unknown, AppendLogEntry, AppendEntriesParams,
  AppendEntriesRet, RequestVoteParams, RequestVoteRet, RaftRole, follower, candidate, leader, dead,
}
use oh_my_db.Persist.Store.{PersistentStore, store, load_int, load, load_int-store}
use oh_my_db.Raft.{Replica}
use oh_my_db.Persist.Log.{push_back, resize}
use oh_my_db.Raft.Append.{
  match_count, abort_all, apply_config, push_entry, push_entries, replace_tail, accept_entries,
  queue_committed, committed_ops, follow_commit, hear_leader, touch_timer, is_dead, is_follower,
  yield_to_leader, take_entries, prev_matches, same_term, append_entries,
}
use oh_my_db.Raft.Append.Outcome.{
  heard, ready, append_entries-dead, append_entries-stale, append_entries-current,
}
use oh_my_db.Raft.Roles.{
  persist, apply_add_server, apply_remove_server, become_follower, become_candidate, become_leader,
  add_peer,
}
use oh_my_db.Raft.Vote.{may_vote, answer_vote, request_vote}
use oh_my_db.Raft.Vote.Grant.{request_vote-stranger, request_vote-newer, request_vote-known}
use oh_my_db.Raft.Election.{
  is_candidate, start_election, count_vote, has_quorum, handle_vote_reply, election_round,
  election_tick,
}
use oh_my_db.Raft.Threads.{bootstrap, disk_of}

-- The two files hold the replica's vote and term.
pub record IsDurable (s : Replica) : Type 0 where
  pub vote : load_int "VotedFor" s.p_store ≡ some s.voted_for
  pub term : load_int "CurrentTerm" s.p_store ≡ some s.current_term

pub persist-IsDurable : (s : Replica) → IsDurable (persist s)
unfolding persist
persist-IsDurable s = record {
  vote = rw load_int-store (rw load_int-store refl);
  term = rw load_int-store refl;
}

pub become_follower-IsDurable :
    (now : ℕ) (term : ℤ) (s : Replica) → IsDurable (become_follower now term s)
unfolding become_follower
become_follower-IsDurable now term s =
    let h = persist-IsDurable (record s {
      current_term = term;
      role = follower;
      voted_for = minus_one;
      election_reset_event = now;
    }) in
    record { vote = h.vote; term = h.term }

pub answer_vote-IsDurable :
    (now : ℕ) (args : RequestVoteParams) (s : Replica) → IsDurable (answer_vote now args s).0
unfolding answer_vote
answer_vote-IsDurable now args s = elim (Bool-cases (may_vote args s)) [
  | inl h ↦
      rw h
        (persist-IsDurable (record s { voted_for = args.candidate_id; election_reset_event = now }))
  | inr h ↦ rw h (persist-IsDurable s)
]

pub request_vote-IsDurable :
    (now : ℕ) (args : RequestVoteParams) (s : Replica)
    → IsDurable s
    → IsDurable (request_vote now args s).0
request_vote-IsDurable now args s d = elim (Bool-cases (contains args.candidate_id s.peers)) [
  | inr h ↦ rw (request_vote-stranger now args s h) d
  | inl h ↦ elim (Bool-cases (ltb_ℤ s.current_term args.term)) [
    | inl k ↦
        rw (request_vote-newer now args s h k)
          (answer_vote-IsDurable now args (become_follower now args.term s))
    | inr k ↦ rw (request_vote-known now args s h k) (answer_vote-IsDurable now args s)
  ]
]
