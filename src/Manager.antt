-- ===== src/Manager.antt =====
-- ohmydb/OhMyReplica.H and ohmydb/DatabaseUtils.H: how `ReplicaManager` answers get and put, and the
-- service of ohmyserver/DatabaseServiceImpl.C. A call has two halves: up to the submission, and after
-- its future is fulfilled.
pub mod Calls
pub mod Start
use oh_my_db.Prelude.{
  ℕ, ℤ, pos, minus_one, Bool, true, false, Option, none, some, [], if◌then◌else◌, ◌>>=◌,
}
use oh_my_db.Consensus.{OpKind, get, put, Operation, Text}
use oh_my_db.Promise.{OpResult, value, done, insert, get_and_remove}
use oh_my_db.Raft.{Replica}
use oh_my_db.Raft.Threads.{submit}
use oh_my_db.Raft.Membership.{leader_db_addr}

-- `ohmydb::ErrorCode`; a number off the wire may have no enumerator.
pub data DbCode : Type 0 where
  db_ok db_not_leader key_not_found : DbCode
  unnamed : ℤ → DbCode

pub record Ret : Type 0 where
  pub error_code : DbCode
  pub leader_addr : Text
  pub value : ℤ

-- An answer at once, or the handle of the promise that the call waits for.
pub data Started : Type 0 where
  answered : Ret → Started
  waiting : (handle : ℕ) → Started

-- `absent` is the value of the answer when the replica is not the leader.
unfoldable pub start_call : OpKind → ℤ → Replica → Replica × Started
start_call kind absent s =
    let (p, handle) = insert s.promises in
    let (t, (is_submitted, leader_id)) =
      submit (record { kind = kind; promise_handle = some handle }) (record s { promises = p }) in
    if is_submitted
    then (t, waiting handle)
    else (let (u, addr) =
          leader_db_addr (record t { promises = get_and_remove handle t.promises }) in
        (u, answered (record { error_code = db_not_leader; leader_addr = addr; value = absent })))

unfoldable pub start_get : ℤ → Replica → Replica × Started
unfolding start_call
start_get key s = start_call (get key) minus_one s

unfoldable pub start_put : ℤ → ℤ → Replica → Replica × Started
unfolding start_call
start_put key val s = start_call (put key val) (pos 0) s

-- `std::get` of the wrong alternative throws: none.
unfoldable pub finish_get : OpResult → Option Ret
finish_get (value none) =
    some (record { error_code = key_not_found; leader_addr = []; value = minus_one })
finish_get (value (some v)) = some (record { error_code = db_ok; leader_addr = []; value = v })
finish_get (done _) = none

unfoldable pub finish_put : OpResult → Option Ret
finish_put (done b) =
    some (record { error_code = db_ok; leader_addr = []; value = if b then pos 1 else pos 0 })
finish_put (value _) = none
