-- ===== src/Tests/Members.antt =====
-- Concrete runs of the configuration changes of ohmyraft/OhMyRaft.H.
use oh_my_db.Prelude.{
  ℕ, ◌≡◌, refl, pos, minus_one, true, false, [], contains, ltb, pos_part, neg_part, ◌==ℤ◌,
  Bool-cases, inl, inr, if◌then◌else◌,
}
use oh_my_db.Consensus.{ok, AddServerParams, RemoveServerParams}
use oh_my_db.Raft.{Replica}
use oh_my_db.Raft.Leader.{is_leader}
use oh_my_db.Raft.Election.{has_quorum}
use oh_my_db.Raft.Threads.{submit, needs_leader}
use oh_my_db.Raft.Membership.{
  add_op, wait_loop, prev_committed, cur_committed, await_prev, await_added, await_removed,
  submit_and_wait, change_config, handle_add_server, handle_remove_server, known_leader,
}
use oh_my_db.Raft.Membership.Waiting.{Committed}
use oh_my_db.Raft.Membership.Outcome.{add_server-Committed, remove_self-forgets_term}
use oh_my_db.Raft.Membership.Lookup.{known_leader-grows}
use oh_my_db.Tests.{busy_leader, newcomer}

-- The leader at look `i`: its change is committed from look 3 on.
abbrev seen : ℕ → Replica
seen i =
    if ltb i 3
    then busy_leader
    else record busy_leader { last_config_change_index = pos 2; commit_index = pos 2 }

abbrev fourth : AddServerParams
fourth = record { server_id = pos 3; ip = []; raft_port = pos 10; db_port = pos 20; name = [] }

abbrev itself : RemoveServerParams
itself = record { server_id = pos 0 }

added : (handle_add_server fourth seen).error_code ≡ ok
unfolding handle_add_server change_config submit_and_wait wait_loop await_prev await_added
    prev_committed cur_committed submit needs_leader is_leader contains pos_part neg_part ◌==ℤ◌
added = refl

add_server-Committed_example :
    (is_leader (seen 0).role ≡ true)
    × (contains (pos 3) (seen 0).cluster_config ≡ false)
    × Committed (add_op fourth) (λ s. s) seen (handle_add_server fourth seen)
add_server-Committed_example = add_server-Committed fourth seen added

removed : (handle_remove_server 7 itself seen).error_code ≡ ok
unfolding handle_remove_server change_config submit_and_wait wait_loop await_prev await_removed
    prev_committed cur_committed submit needs_leader is_leader contains pos_part neg_part ◌==ℤ◌
removed = refl

same_id : (i : ℕ) → (seen i).id ≡ pos 0
same_id i = elim (Bool-cases (ltb i 3)) [ inl h ↦ rw h refl | inr h ↦ rw h refl ]

remove_self-forgets_term_example :
    ((handle_remove_server 7 itself seen).left.current_term ≡ minus_one)
    × ((handle_remove_server 7 itself seen).left.voted_for ≡ minus_one)
remove_self-forgets_term_example = remove_self-forgets_term 7 itself seen removed same_id

abbrev elected : Replica
elected = record newcomer { last_known_leader_id = pos 9; votes_received = 2 }

unknown_leader : contains elected.last_known_leader_id elected.cluster_config ≡ false
unfolding contains ◌==ℤ◌
unknown_leader = refl

known_leader-grows_example :
    (has_quorum elected ≡ true) × (has_quorum (known_leader elected).0 ≡ false)
known_leader-grows_example = known_leader-grows elected unknown_leader refl
