-- ===== src/Wire/Database.antt =====
-- ohmyserver/DatabaseServiceImpl.C and ohmyserver/DatabaseClient.H: the RPCs of get and put, at the
-- service and at the client. What gRPC does with a message is the argument `call`.
pub mod Trip
use oh_my_db.Prelude.{ℤ, pos, minus_one, Option, none, some, ◌>>=◌, ◌==ℤ◌, if◌then◌else◌}
use oh_my_db.Consensus.{Text}
use oh_my_db.Manager.{DbCode, db_ok, db_not_leader, key_not_found, unnamed, Ret}

-- The enumerators of `ohmydb::ErrorCode`
unfoldable pub db_code_number : DbCode → ℤ
db_code_number db_ok = pos 0
db_code_number db_not_leader = pos 1
db_code_number key_not_found = pos 2
db_code_number (unnamed n) = n

-- `static_cast<ohmydb::ErrorCode>`
unfoldable pub number_db_code : ℤ → DbCode
number_db_code n =
    if n ==ℤ pos 0
    then db_ok
    else if n ==ℤ pos 1
    then db_not_leader
    else if n ==ℤ pos 2
    then key_not_found
    else unnamed n

-- The messages of db.proto
pub record PutRequest : Type 0 where
  pub key : ℤ
  pub value : ℤ

pub record PutResponse : Type 0 where
  pub error_code : ℤ
  pub leader_addr : Text

pub record GetResponse : Type 0 where
  pub error_code : ℤ
  pub leader_addr : Text
  pub value : ℤ

-- The services, from what `ReplicaManager` answers. A get request has the key alone.
unfoldable pub serve_put : (ℤ → ℤ → Ret) → PutRequest → PutResponse
unfolding db_code_number
serve_put manager_put request =
    let ret = manager_put request.key request.value in
    record { error_code = db_code_number ret.error_code; leader_addr = ret.leader_addr }

unfoldable pub serve_get : (ℤ → Ret) → ℤ → GetResponse
unfolding db_code_number
serve_get manager_get key =
    let ret = manager_get key in
    record {
      error_code = db_code_number ret.error_code;
      leader_addr = ret.leader_addr;
      value = ret.value;
    }

-- `OhMyDBClient::Put` and `Get`
unfoldable pub send_put : (PutRequest → Option PutResponse) → ℤ → ℤ → Option Ret
unfolding number_db_code
send_put call key value = do
  response ← call (record { key = key; value = value })
  some (record {
    error_code = number_db_code response.error_code;
    leader_addr = response.leader_addr;
    value = minus_one;
  })

unfoldable pub send_get : (ℤ → Option GetResponse) → ℤ → Option Ret
unfolding number_db_code
send_get call key = do
  response ← call key
  some (record {
    error_code = number_db_code response.error_code;
    leader_addr = response.leader_addr;
    value = response.value;
  })

-- `TestCall` sends back what it is sent, and `OhMyDBClient::Ping` turns a failure into -1.
unfoldable pub serve_test_call : ℤ → ℤ
serve_test_call sup = sup

unfoldable pub ping_database : (ℤ → Option ℤ) → ℤ → ℤ
ping_database call cmd = elim (call cmd) [ some reply ↦ reply | none ↦ minus_one ]
