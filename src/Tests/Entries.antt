-- ===== src/Tests/Entries.antt =====
-- Concrete runs of replication and commitment in ohmyraft/OhMyRaft.H.
use oh_my_db.Prelude.{
  suc, ◌≡◌, refl, ℤ, pos, minus_one, true, false, none, some, [], ◌∷◌, ◌++◌, map, take, ◌≤ℤ◌, ◌<ℤ◌,
  min_ℤ, pos_part, neg_part, arith, ltb_ℤ, dec, inc, ◌==ℤ◌, if◌then◌else◌, find_or, zero,
}
use oh_my_db.Consensus.{leader, LogEntry, AppendEntriesParams, AppendEntriesRet, without_promise}
use oh_my_db.Raft.{Replica}
use oh_my_db.Raft.Roles.{become_follower}
use oh_my_db.Persist.Log.{push_back, resize, persist as persist_log}
use oh_my_db.Raft.Append.{
  committed_ops, ops_range, touch_timer, is_dead, hear_leader, yield_to_leader, is_follower,
  same_term, prev_matches, take_entries, match_count, replace_tail, push_entries, push_entry,
  apply_config, abort_all, strip, accept_entries, follow_commit, append_entries,
}
use oh_my_db.Raft.Append.Followed.{Answer, append_entries-Answer}
use oh_my_db.Raft.Append.Commit.{upto, advanced, commit_after, follow_commit-eq}
use oh_my_db.Raft.Leader.{
  next_of, entries_at, entries_from, term_before, leader_commit, append_args,
}
use oh_my_db.Raft.Leader.Commit.{CommitChoice, leader_commit-choice}
use oh_my_db.Raft.Replication.Committed.{append_entries-commits}
use oh_my_db.Raft.Replication.{LogMatching, append_entries-replicates}
use oh_my_db.Raft.Threads.{raft_round}
use oh_my_db.Raft.Threads.Rounds.{raft_round-logs_inputs}
use oh_my_db.Tests.{busy_leader, lagging, second_entry, put_op, entry}

pub low : minus_one ≤ℤ minus_one
unfolding pos_part neg_part
low = ground arith

append_entries-Answer_example :
    (t : Replica) × (r : AppendEntriesRet) × (append_entries 5 second_entry lagging ≡ some (t, r))
    × Answer second_entry lagging t r
unfolding pos_part neg_part
append_entries-Answer_example = append_entries-Answer 5 second_entry lagging low (ground arith)

follow_commit-eq_example :
    follow_commit (pos 1) lagging
    ≡ some (
        if ltb_ℤ lagging.commit_index (pos 1)
        then advanced (commit_after (pos 1) lagging) lagging
        else lagging)
follow_commit-eq_example = follow_commit-eq (pos 1) lagging low

leader_commit-choice_example :
    (c : ℤ) × (leader_commit busy_leader ≡ some c) × CommitChoice busy_leader c
leader_commit-choice_example = leader_commit-choice busy_leader low

raft_round-logs_inputs_example :
    ((raft_round leader (record lagging { dispatch_out = put_op ∷ [] })).logs.items
      ≡ lagging.logs.items ++ entry (pos 1) put_op ∷ [])
    × ((raft_round leader (record lagging { dispatch_out = put_op ∷ [] })).raft_in ≡ [])
raft_round-logs_inputs_example =
    raft_round-logs_inputs (record lagging { dispatch_out = put_op ∷ [] })

-- What `busy_leader` sends to peer 1 at this commit index.
abbrev pub shipment : AppendEntriesParams
shipment = record second_entry { leader_commit = minus_one }

abbrev pub caught_up : Replica × AppendEntriesRet
caught_up = elim (append_entries 5 shipment lagging) [
  | none ↦ (lagging, record { term = pos 0; success = false })
  | some p ↦ p
]

runs : append_entries 5 shipment lagging ≡ some caught_up
unfolding append_entries touch_timer is_dead hear_leader become_follower yield_to_leader is_follower
    same_term prev_matches take_entries accept_entries match_count replace_tail push_entries
    push_entry apply_config push_back resize persist_log strip without_promise abort_all
    follow_commit pos_part neg_part ◌==ℤ◌ inc dec
runs = refl

abbrev pub taken : AppendEntriesRet
taken = record { term = pos 2; success = true }

pub runs_taken : append_entries 5 shipment lagging ≡ some (caught_up.0, taken)
unfolding append_entries touch_timer is_dead hear_leader become_follower yield_to_leader is_follower
    same_term prev_matches take_entries accept_entries match_count replace_tail push_entries
    push_entry apply_config push_back resize persist_log strip without_promise abort_all
    follow_commit pos_part neg_part ◌==ℤ◌ inc dec
runs_taken = refl

accepted : caught_up.1.success ≡ true
unfolding append_entries touch_timer is_dead hear_leader become_follower yield_to_leader is_follower
    same_term prev_matches take_entries accept_entries match_count replace_tail push_entries
    push_entry apply_config push_back resize persist_log strip without_promise abort_all
    follow_commit pos_part neg_part ◌==ℤ◌ inc dec
accepted = refl

sent : append_args (pos 2) (pos 1) busy_leader ≡ some shipment
unfolding append_args find_or term_before entries_at entries_from without_promise inc dec ◌==ℤ◌
sent = refl

next_one : next_of (pos 1) busy_leader ≡ pos 1
unfolding find_or ◌==ℤ◌
next_one = refl

two : ◌≡◌ {A = ℤ} (pos 1) (pos 2) → ⊥
two h = ground (arith, h)

pub none-some : (e : LogEntry) → none ≡ some e → ⊥
none-some e h = ground (arith, h)

pub logs_match : LogMatching lagging.logs.items busy_leader.logs.items
logs_match zero e e' p q r = refl
logs_match (suc zero) e e' p q r = absurd (two (cc (p, q, r)))
logs_match (suc (suc i)) e e' p q r = absurd (none-some e' q)

append_entries-replicates_example :
    map strip (take 2 caught_up.0.logs.items) ≡ map strip busy_leader.logs.items
append_entries-replicates_example =
    append_entries-replicates 5 (pos 2) (pos 1) 1 busy_leader lagging caught_up.0 shipment
      caught_up.1 next_one (omega arith) logs_match low sent runs accepted

-- The same leader, which has committed its log.
abbrev settled : Replica
settled = record busy_leader { commit_index = pos 1 }

abbrev brought_up : Replica × AppendEntriesRet
brought_up = elim (append_entries 5 second_entry lagging) [
  | none ↦ (lagging, record { term = pos 0; success = false })
  | some p ↦ p
]

runs_settled : append_entries 5 second_entry lagging ≡ some brought_up
unfolding append_entries touch_timer is_dead hear_leader become_follower yield_to_leader is_follower
    same_term prev_matches take_entries accept_entries match_count replace_tail push_entries
    push_entry apply_config push_back resize persist_log strip without_promise abort_all
    follow_commit pos_part neg_part ◌==ℤ◌ inc dec committed_ops min_ℤ ops_range
runs_settled = refl

accepted_settled : brought_up.1.success ≡ true
unfolding append_entries touch_timer is_dead hear_leader become_follower yield_to_leader is_follower
    same_term prev_matches take_entries accept_entries match_count replace_tail push_entries
    push_entry apply_config push_back resize persist_log strip without_promise abort_all
    follow_commit pos_part neg_part ◌==ℤ◌ inc dec committed_ops min_ℤ ops_range
accepted_settled = refl

sent_settled : append_args (pos 2) (pos 1) settled ≡ some second_entry
unfolding append_args find_or term_before entries_at entries_from without_promise inc dec ◌==ℤ◌
sent_settled = refl

ahead : lagging.commit_index <ℤ settled.commit_index
unfolding pos_part neg_part
ahead = ground arith

append_entries-commits_example :
    map strip (take (upto brought_up.0.commit_index) brought_up.0.logs.items)
    ≡ map strip (take (upto brought_up.0.commit_index) settled.logs.items)
append_entries-commits_example =
    append_entries-commits 5 (pos 2) (pos 1) 1 settled lagging brought_up.0 second_entry
      brought_up.1 next_one (omega arith) logs_match low sent_settled runs_settled accepted_settled
      ahead (omega arith)
