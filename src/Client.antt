-- ===== src/Client.antt =====
-- ohmydb/ReplicatedDB.H and ohmyserver/DatabaseClient.H: the client library, which looks for the
-- leader. `reply i addr` is what the `i`-th call answers at the address `addr`; none is a status that
-- is not OK. The calls go through gRPC.
pub mod Retry
pub mod Reached
use oh_my_db.Prelude.{
  ℕ, zero, suc, ◌+◌, ℤ, pos, minus_one, Map, Bool, true, false, Option, none, some, List, [], ◌∷◌,
  ◌++◌, length, contains, find_or, insert, leb, not, ◌==ℤ◌, if◌then◌else◌, to_string, ◌>>=◌,
}
use oh_my_db.Consensus.{ServerInfo, no_server, Text}
use oh_my_db.Manager.{DbCode, db_ok, db_not_leader, key_not_found, unnamed, Ret}

-- `MAX_TRIES`
abbrev pub max_tries : ℕ
max_tries = 1000

-- `ReplicatedDB`, with the local `backupID` of its loops.
pub record Finder : Type 0 where
  pub server_addr : Text
  pub server_info : Map ServerInfo
  pub backup_id : ℕ

unfoldable pub db_addr : ServerInfo → Text
db_addr info = info.ip ++ 58 ∷ to_string info.db_port

-- The call failed: the next server of the list is contacted. `operator[]` adds a missing one.
unfoldable pub next_server : Finder → Finder
unfolding db_addr
next_server f =
    let k = pos f.backup_id in
    let known =
      if contains k f.server_info then f.server_info else insert k no_server f.server_info in
    record {
      server_addr = db_addr (find_or k no_server f.server_info);
      server_info = known;
      backup_id = if leb (length known) (f.backup_id + 1) then 0 else f.backup_id + 1;
    }

-- What a try tells the loop: try again from here, or return.
pub data Verdict (A : Type 0) : Type 0 where
  retry : Finder → Verdict A
  return : A → Verdict A

unfoldable pub is_not_leader : DbCode → Bool
is_not_leader db_not_leader = true
is_not_leader _ = false

-- One round of the loop of `get` and of `put`; `finish` reads the reply of the leader.
module _ {A : Type 0} (finish : Ret → Option A) where
  unfoldable pub try_once : Option Ret → Finder → Verdict A
  try_once none f = retry (next_server f)
  try_once (some r) f =
      if is_not_leader r.error_code
      then retry (record f { server_addr = r.leader_addr })
      else elim (finish r) [ some a ↦ return a | none ↦ retry f ]

  -- `while ( iters-- )`, and the result after the last try
  unfoldable pub search_leader : A → (ℕ → Text → Option Ret) → ℕ → ℕ → Finder → A
  search_leader failed reply i zero f = failed
  search_leader failed reply i (suc n) f = elim (try_once (reply i f.server_addr) f) [
    | retry f' ↦ search_leader failed reply (suc i) n f'
    | return a ↦ a
  ]

-- A code that has no enumerator leaves the switch, and the loop goes on.
unfoldable pub finish_get : Ret → Option (Option ℤ)
finish_get r = elim r.error_code [
  | db_ok ↦ some (some r.value)
  | key_not_found ↦ some none
  | _ ↦ none
]

unfoldable pub finish_put : Ret → Option Bool
finish_put r = elim r.error_code [
  | db_ok ↦ some (not (r.value ==ℤ pos 0))
  | key_not_found ↦ some false
  | _ ↦ none
]

-- `OhMyDBClient::Put`: the response of a put has no value, and the result gets -1.
unfoldable pub client_put : Option Ret → Option Ret
client_put response = do r ← response; some (record r { value = minus_one })

-- `ReplicatedDB::get` and `put`, from the first try on.
unfoldable pub db_get : (ℕ → Text → Option Ret) → Finder → Option ℤ
db_get reply f = search_leader finish_get none reply 0 max_tries f

unfoldable pub db_put : (ℕ → Text → Option Ret) → Finder → Bool
db_put reply f = search_leader finish_put false (λ i addr. client_put (reply i addr)) 0 max_tries f
