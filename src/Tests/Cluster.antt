-- ===== src/Tests/Cluster.antt =====
-- Concrete runs of the calls between servers, and of the tools that prepare them.
use oh_my_db.Prelude.{
  inc, ℕ, ◌*◌, ◌<◌, ◌≡◌, refl, ℤ, pos, find, contains, insert, true, false, none, some, List, [],
  ◌∷◌, ◌++◌, ◌>>=◌, codes, arith, if◌then◌else◌, c_str, FitsArray, ◌==ℤ◌, length, not, ◌&&◌,
  pos_part, neg_part,
}
use oh_my_db.Consensus.{Text, AddServerParams, PeerNetworkConfig}
use oh_my_db.Raft.{Replica, fresh_router}
use oh_my_db.Raft.Membership.{handle_add_server}
use oh_my_db.Raft.Threads.{Disk, network_update}
use oh_my_db.Manager.Start.{
  Started, no_place, connect, active_peers, local_config, initialise_services,
}
use oh_my_db.Manager.Start.Ready.{initialise_services-ready}
use oh_my_db.Client.{Finder, db_get}
use oh_my_db.Manager.{Ret, db_ok, finish_get}
use oh_my_db.Promise.{value}
use oh_my_db.Partition.{partition_id, make_plan, updates}
use oh_my_db.Partition.Split.{sent, route, updates_split}
use oh_my_db.Wire.Members.{
  ip_size, name_size, add_server_params, add_server_request, change_response, serve_add_server,
  send_add_server,
}
use oh_my_db.Wire.Members.Trip.{send_add_server-direct}
use oh_my_db.Wire.Database.Trip.{call_leader, db_get_faithful}
use oh_my_db.Tools.{Draw, random_entry}
use oh_my_db.Tests.{newcomer, three_servers}

abbrev newcomers : ℕ → Replica
newcomers i = newcomer

abbrev fourth : AddServerParams
fourth = record {
  server_id = pos 3;
  ip = codes "1.2.3.4";
  raft_port = pos 10;
  db_port = pos 20;
  name = codes "node3";
}

ip_fits : FitsArray ip_size fourth.ip
unfolding c_str
ip_fits = record { no_zero = refl; short = omega arith }

name_fits : FitsArray name_size fourth.name
unfolding c_str
name_fits = record { no_zero = refl; short = omega arith }

send_add_server-direct_example :
    (add_server_params (add_server_request fourth) ≡ some fourth)
    × (serve_add_server (add_server_request fourth) newcomers
        ≡ some (
          (handle_add_server fourth newcomers).left,
          change_response (handle_add_server fourth newcomers),
        ))
    × (send_add_server
          (λ request. do (t, response) ← serve_add_server request newcomers; some response)
          fourth
        ≡ some (record {
          error_code = (handle_add_server fourth newcomers).error_code;
          leader_addr = (handle_add_server fourth newcomers).leader_addr;
        }))
send_add_server-direct_example = send_add_server-direct fourth newcomers ip_fits name_fits

abbrev finder : Finder
finder = record { server_addr = []; server_info = three_servers; backup_id = 0 }

-- Every key holds the number after it.
abbrev manager_get : ℤ → Ret
manager_get key = record { error_code = db_ok; leader_addr = []; value = inc key }

found : finish_get (value (some (pos 4))) ≡ some (manager_get (pos 3))
unfolding finish_get inc
found = refl

db_get_faithful_example : db_get (λ i to. call_leader manager_get (pos 3)) finder ≡ some (pos 4)
db_get_faithful_example =
    db_get_faithful manager_get (λ i to. call_leader manager_get (pos 3)) finder (pos 3)
      (some (pos 4)) refl found

peer_known : contains (pos 2) newcomer.peers ≡ true
unfolding contains ◌==ℤ◌
peer_known = refl

-- Servers 0 and 1 are cut off from server 2.
updates_split_example :
    (configs : List PeerNetworkConfig) × (sent 0 (updates (make_plan (codes "110") 3))
      ≡ some configs)
    × (find (pos 2) (network_update configs newcomer).peers ≡ some (route false))
unfolding partition_id
updates_split_example = updates_split (codes "110") 3 0 2 49 48 newcomer (refl, refl) peer_known

abbrev no_files : Disk
no_files = record { log = []; files = [] }

all_answer :
    length (local_config (pos 0) no_place three_servers)
    < active_peers (λ i. pos 1) (connect (pos 0) (local_config (pos 0) no_place three_servers) [])
      * 2
unfolding local_config connect active_peers contains ◌==ℤ◌ insert pos_part neg_part
all_answer = omega arith

initialise_services-ready_example :
    (started : Started) × (initialise_services three_servers
        (pos 0)
        true
        false
        no_files
        no_place
        (λ r i. pos 1)
        5
      ≡ some started)
    × (started.replica.cluster_config ≡ three_servers)
    × ((j : ℤ)
        → find j started.replica.peers
          ≡ (if contains j three_servers && not (j ==ℤ pos 0) then some fresh_router else none))
initialise_services-ready_example =
    initialise_services-ready three_servers (pos 0) true false no_files no_place (λ r i. pos 1) 5 2
      (omega arith) all_answer

abbrev table : Text
table = codes "term,count" ++ 10 ∷ (codes "1,2" ++ 10 ∷ (codes "3,1" ++ 10 ∷ []))

abbrev draws : ℕ → Draw
draws i = record { kind = i; first = 5; second = 6 }

abbrev written : Disk
written = record {
  log =
      random_entry (pos 1) (draws 0)
      ∷ random_entry (pos 1) (draws 1)
      ∷ random_entry (pos 3) (draws 2)
      ∷ [];
  files = ("VotedFor", pos 1) ∷ ("CurrentTerm", pos 3) ∷ [];
}
