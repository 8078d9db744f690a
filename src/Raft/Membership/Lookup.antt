-- ===== src/Raft/Membership/Lookup.antt =====
-- What looking up the leader's address does to the configuration, in ohmyraft/OhMyRaft.H.
use oh_my_db.Prelude.{
  suc, ◌+◌, ◌*◌, ◌≡◌, refl, ℤ, Map, true, false, [], ◌∷◌, length, contains, insert, arith,
}
use oh_my_db.Consensus.{no_server}
use oh_my_db.Raft.{Replica}
use oh_my_db.Raft.Election.{has_quorum}
use oh_my_db.Raft.Membership.{known_leader}

length-insert_new {ℓ} :
    {V : Type ℓ} (k : ℤ) (v : V) (m : Map V)
    → contains k m ≡ false
    → length (insert k v m) ≡ suc (length m)
unfolding insert contains
length-insert_new k v [] h = refl
length-insert_new k v ((j, w) ∷ m) h = ground (arith, length-insert_new k v m)

-- Looking up a leader that the configuration does not have adds an empty server to it: the
-- configuration counts one server more, and the votes that were just a majority are none any more.
pub known_leader-grows :
    (s : Replica)
    → contains s.last_known_leader_id s.cluster_config ≡ false
    → length s.cluster_config + 1 ≡ s.votes_received * 2
    → (has_quorum s ≡ true) × (has_quorum (known_leader s).0 ≡ false)
unfolding has_quorum known_leader
known_leader-grows s h k = (
  ground arith,
  rw h (ground (arith, length-insert_new s.last_known_leader_id no_server s.cluster_config)),
)
