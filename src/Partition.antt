-- ===== src/Partition.antt =====
-- ohmyserver/updatemask.cpp: the tool that splits the network in two. `opCfg` is a text of ones and
-- zeros, a character for each replica.
pub mod Split
use oh_my_db.Prelude.{
  ℕ, zero, suc, ◌-◌, ℤ, pos, Bool, true, false, List, [], ◌∷◌, ◌++◌, map, length, take, min, ◌==◌,
  if◌then◌else◌,
}
use oh_my_db.Consensus.{Text, PeerNetworkConfig}

-- `(int)(opCfg[i]-'0') == 1`
unfoldable pub partition_id : ℕ → Bool
partition_id c = c == 49

-- The two arrays `partition` and `pVec`, an element for each partition.
pub record Plan : Type 0 where
  pub members0 : List ℕ
  pub members1 : List ℕ
  pub configs0 : List PeerNetworkConfig
  pub configs1 : List PeerNetworkConfig

abbrev pub no_plan : Plan
no_plan = record { members0 = []; members1 = []; configs0 = []; configs1 = [] }

unfoldable pub peer_config : ℕ → Bool → PeerNetworkConfig
peer_config i is_enabled = record {
  peer_id = pos i;
  is_enabled = is_enabled;
  is_delayed = false;
  delay_ms = pos 0;
}

-- The body of the loop for replica `i`.
unfoldable pub add_replica : ℕ → Bool → Plan → Plan
unfolding peer_config
add_replica i true p = record p {
  members1 = p.members1 ++ i ∷ [];
  configs0 = p.configs0 ++ peer_config i false ∷ [];
  configs1 = p.configs1 ++ peer_config i true ∷ [];
}
add_replica i false p = record p {
  members0 = p.members0 ++ i ∷ [];
  configs1 = p.configs1 ++ peer_config i false ∷ [];
  configs0 = p.configs0 ++ peer_config i true ∷ [];
}

unfoldable pub plan_from : ℕ → Text → Plan → Plan
unfolding partition_id add_replica
plan_from i [] p = p
plan_from i (c ∷ cs) p = plan_from (suc i) cs (add_replica i (partition_id c) p)

unfoldable pub make_plan : Text → ℕ → Plan
unfolding plan_from
make_plan op_cfg num_servers = plan_from 0 (take (min (length op_cfg) num_servers) op_cfg) no_plan

-- The calls of `NetworkUpdate`, in order: a replica and what it is sent.
unfoldable pub updates : Plan → List (ℕ × List PeerNetworkConfig)
updates p = map (λ i. (i, p.configs0)) p.members0 ++ map (λ i. (i, p.configs1)) p.members1
