-- ===== src/Raft/Vote.antt =====
-- `RaftManager::RequestVote` of ohmyraft/OhMyRaft.H.
pub mod Grant
pub mod Once
use oh_my_db.Prelude.{
  ℕ, ℤ, minus_one, Bool, true, false, ◌&&◌, ◌||◌, List, [], ◌∷◌, length, last_index, contains,
  ltb_ℤ, leb_ℤ, ◌==ℤ◌, if◌then◌else◌,
}
use oh_my_db.Consensus.{LogEntry, RequestVoteParams, RequestVoteRet}
use oh_my_db.Raft.{Replica}
use oh_my_db.Raft.Roles.{persist, become_follower}

-- The term of the last entry, -1 for an empty log.
unfoldable pub last_log_term : List LogEntry → ℤ
last_log_term [] = minus_one
last_log_term (e ∷ []) = e.term
last_log_term (e ∷ f ∷ l) = last_log_term (f ∷ l)

-- The candidate's log is at least as new as ours.
unfoldable pub up_to_date : RequestVoteParams → List LogEntry → Bool
up_to_date args logs =
    ltb_ℤ (last_log_term logs) args.last_log_term
    || (args.last_log_term ==ℤ last_log_term logs
        && leb_ℤ (last_index (length logs)) args.last_log_index)

unfoldable pub may_vote : RequestVoteParams → Replica → Bool
may_vote args s =
    args.term ==ℤ s.current_term
    && ((s.voted_for ==ℤ minus_one || s.voted_for ==ℤ args.candidate_id)
        && up_to_date args s.logs.items)

unfoldable pub answer_vote : ℕ → RequestVoteParams → Replica → Replica × RequestVoteRet
unfolding may_vote persist
answer_vote now args s =
    if may_vote args s
    then (
      persist (record s { voted_for = args.candidate_id; election_reset_event = now }),
      record { term = s.current_term; vote_granted = true },
    )
    else (persist s, record { term = s.current_term; vote_granted = false })

-- `lastLogIndex` and `lastLogTerm` are read before `becomeFollower`, which leaves the log alone.
unfoldable pub request_vote : ℕ → RequestVoteParams → Replica → Replica × RequestVoteRet
unfolding answer_vote become_follower
request_vote now args s =
    if contains args.candidate_id s.peers
    then answer_vote now args
        (if ltb_ℤ s.current_term args.term then become_follower now args.term s else s)
    else (s, record { term = s.current_term; vote_granted = false })
