-- ===== src/Manager/Start.antt =====
-- `initialiseServices` of ohmydb/OhMyReplica.H and `main` of ohmyserver/replica.cpp: how a replica comes up. `pings r i` is what peer `i`
-- answers to the ping of round `r`. The two servers of gRPC and the database are started on the way;
-- they are told an address and a path.
pub mod Ready
use oh_my_db.Prelude.{
  ℕ, zero, suc, ◌+◌, ◌*◌, ℤ, pos, minus_one, Map, insert, contains, find_or, Bool, true, false,
  ◌||◌, not, Option, none, some, List, [], ◌∷◌, ◌++◌, ◌>>=◌, length, ltb, ltb_ℤ, ◌==ℤ◌,
  if◌then◌else◌, to_string,
}
use oh_my_db.Consensus.{ServerInfo, no_server, Text}
use oh_my_db.Config.{parse_config}
use oh_my_db.Raft.{Replica, Router, fresh_router}
use oh_my_db.Raft.Roles.{add_peer, set_cluster_config}
use oh_my_db.Raft.Threads.{Disk, bootstrap}

unfoldable pub is_empty : Text → Bool
is_empty [] = true
is_empty (c ∷ cs) = false

-- The arguments that may be left out.
pub record Place : Type 0 where
  pub ip : Text
  pub raft_port : ℤ
  pub db_port : ℤ

unfoldable pub is_left_out : Place → Bool
unfolding is_empty
is_left_out p = is_empty p.ip || p.db_port ==ℤ minus_one || p.raft_port ==ℤ minus_one

-- `clusterConfig[id]`, read for what is left out, adds a missing entry to the local copy.
unfoldable pub local_config : ℤ → Place → Map ServerInfo → Map ServerInfo
unfolding is_left_out
local_config id p config =
    if is_left_out p
    then (if contains id config then config else insert id no_server config)
    else config

unfoldable pub filled_in : ℤ → Place → Map ServerInfo → Place
unfolding is_empty
filled_in id p config =
    let own = find_or id no_server config in
    record {
      ip = if is_empty p.ip then own.ip else p.ip;
      raft_port = if p.raft_port ==ℤ minus_one then own.raft_port else p.raft_port;
      db_port = if p.db_port ==ℤ minus_one then own.db_port else p.db_port;
    }

-- A client for every other server of the configuration.
unfoldable pub connect : ℤ → Map ServerInfo → Map Router → Map Router
connect id [] peers = peers
connect id ((i, info) ∷ config) peers =
    connect id config (if i ==ℤ id then peers else insert i fresh_router peers)

-- The peers that answer in a round, and the replica itself.
unfoldable pub active_peers : (ℤ → ℤ) → Map Router → ℕ
active_peers pinged [] = 1
active_peers pinged ((i, peer) ∷ peers) =
    let rest = active_peers pinged peers in if ltb_ℤ (pos 0) (pinged i) then rest + 1 else rest

-- `while ( true )`, for `n` rounds at most: the round that leaves it, or none.
unfoldable pub wait_for_peers : Bool → ℕ → Map Router → (ℕ → ℤ → ℤ) → ℕ → ℕ → Option ℕ
unfolding active_peers
wait_for_peers is_waiting size peers pings r zero = none
wait_for_peers is_waiting size peers pings r (suc n) =
    let later = wait_for_peers is_waiting size peers pings (suc r) n in
    if not is_waiting || ltb size (active_peers (pings r) peers * 2) then some r else later

unfoldable pub add_peers : Map Router → Replica → Replica
add_peers [] s = s
add_peers ((i, peer) ∷ peers) s = add_peers peers (add_peer i peer s)

pub record Started : Type 0 where
  pub replica : Replica
  pub raft_server_addr : Text
  pub db_server_addr : Text

-- The addresses that the two servers listen on.
abbrev pub started_at : Place → Replica → Started
started_at p s = record {
  replica = s;
  raft_server_addr = p.ip ++ 58 ∷ to_string p.raft_port;
  db_server_addr = p.ip ++ 58 ∷ to_string p.db_port;
}

unfoldable pub initialise_services :
    Map ServerInfo → ℤ → Bool → Bool → Disk → Place → (ℕ → ℤ → ℤ) → ℕ → Option Started
unfolding local_config filled_in connect wait_for_peers add_peers
initialise_services config id is_waiting with_bootstrap disk place pings rounds =
    let s = set_cluster_config config (bootstrap id with_bootstrap disk) in
    let known = local_config id place s.cluster_config in
    let p = filled_in id place s.cluster_config in
    let peers = connect id known [] in
    do
      r ← wait_for_peers is_waiting (length known) peers pings 0 rounds
      some (started_at p (add_peers peers s))

abbrev pub no_place : Place
no_place = record { ip = []; raft_port = minus_one; db_port = minus_one }

-- `printServer` reads `servers[id]`, which adds a missing entry.
unfoldable pub printed_servers : ℤ → Map ServerInfo → Map ServerInfo
printed_servers id servers = if contains id servers then servers else insert id no_server servers

-- `main` of replica.cpp up to `start`: a replica that is added to a running cluster does not wait for
-- its peers, and is told its place.
unfoldable pub run_replica :
    Text → ℤ → Bool → Bool → Disk → Place → (ℕ → ℤ → ℤ) → ℕ → Option Started
unfolding initialise_services printed_servers
run_replica file id is_added with_bootstrap disk place pings rounds = do
  servers ← parse_config file
  if is_added
      then initialise_services servers id false with_bootstrap disk place pings rounds
      else initialise_services (printed_servers id servers) id true with_bootstrap disk no_place
          pings rounds
