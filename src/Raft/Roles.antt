-- ===== src/Raft/Roles.antt =====
-- The role transitions of ohmyraft/OhMyRaft.H, peers and configuration. Each runs with the state's
-- mutex held; `now` is `system_clock::now()`.
use oh_my_db.Prelude.{
  ℕ, ℤ, pos, minus_one, Map, false, [], ◌∷◌, length, last_index, insert, erase, ◌==ℤ◌,
  if◌then◌else◌,
}
use oh_my_db.Consensus.{ServerInfo, follower, candidate, leader, dead}
use oh_my_db.Persist.Store.{store}
use oh_my_db.Raft.{Replica, Router, fresh_router}

-- `RaftState::persist`
unfoldable pub persist : Replica → Replica
persist s = record s {
  p_store = store "CurrentTerm" s.current_term (store "VotedFor" s.voted_for s.p_store);
}

unfoldable pub become_follower : ℕ → ℤ → Replica → Replica
unfolding persist
become_follower now term s = persist (record s {
  current_term = term;
  role = follower;
  voted_for = minus_one;
  election_reset_event = now;
})

unfoldable pub become_candidate : ℕ → ℤ → Replica → Replica
unfolding persist
become_candidate now term s = persist (record s {
  current_term = term;
  role = candidate;
  election_reset_event = now;
  voted_for = s.id;
})

-- `NextIndex[id] = next; MatchIndex[id] = -1;` for each peer, from empty maps
unfoldable pub each_peer : ℤ → Map Router → Map ℤ
each_peer v [] = []
each_peer v ((id, r) ∷ ps) = (id, v) ∷ each_peer v ps

unfoldable pub become_leader : ℕ → Replica → Replica
unfolding persist
become_leader now s = persist (record s {
  role = leader;
  election_reset_event = now;
  voted_for = minus_one;
  last_known_leader_id = s.id;
  next_index = each_peer (pos (length s.logs.items)) s.peers;
  match_index = each_peer minus_one s.peers;
})

unfoldable pub become_dead : Replica → Replica
unfolding persist
become_dead s = record (persist (record s { role = dead })) { keep_running = false }

unfoldable pub add_peer : ℤ → Router → Replica → Replica
unfolding persist
add_peer peer_id rpc_client s = persist (record s {
  next_index = insert peer_id (pos 0) s.next_index;
  match_index = insert peer_id minus_one s.match_index;
  peers = insert peer_id rpc_client s.peers;
})

unfoldable pub remove_peer : ℤ → Replica → Replica
remove_peer peer_id s = record s {
  next_index = erase peer_id s.next_index;
  match_index = erase peer_id s.match_index;
  peers = erase peer_id s.peers;
}

-- The mutex is released round `addPeer` and `removePeer`, which take it again: `meanwhile` is what other
-- threads do to the state once it is free.
abbrev pub apply_add_server_while : (Replica → Replica) → ServerInfo → Replica → Replica
apply_add_server_while meanwhile info s =
    let t = persist (record s {
      last_config_change_index = last_index (length s.logs.items);
      cluster_config = insert info.id info s.cluster_config;
    }) in
    if s.id ==ℤ info.id then t else add_peer info.id fresh_router (meanwhile t)

abbrev pub apply_remove_server_while : (Replica → Replica) → ℤ → Replica → Replica
apply_remove_server_while meanwhile server_id s =
    let t = persist (record s {
      last_config_change_index = last_index (length s.logs.items);
      cluster_config = erase server_id s.cluster_config;
    }) in
    if s.id ==ℤ server_id then t else remove_peer server_id (meanwhile t)

-- The runs where no other thread gets in between. All that applies a change of the configuration is
-- modelled for these runs.
unfoldable pub apply_add_server : ServerInfo → Replica → Replica
unfolding persist add_peer
apply_add_server info s = apply_add_server_while (λ t. t) info s

unfoldable pub apply_remove_server : ℤ → Replica → Replica
unfolding persist remove_peer
apply_remove_server server_id s = apply_remove_server_while (λ t. t) server_id s

unfoldable pub set_cluster_config : Map ServerInfo → Replica → Replica
unfolding persist
set_cluster_config config s = persist (record s { cluster_config = config })
