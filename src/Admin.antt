-- ===== src/Admin.antt =====
-- ohmyserver/admin.cpp: the tool that adds a server to the cluster and removes one from it.
-- What the network answers is an argument: a ping's result at an address, and what the `i`-th call
-- answers there, none for a status that is not OK.
pub mod Search
pub mod File
pub mod Answer
use oh_my_db.Prelude.{
  ℕ, zero, suc, ◌+◌, ℤ, pos, Map, Bool, true, false, Option, none, some, List, [], ◌∷◌, ◌++◌, codes,
  to_string, contains, find_or, insert, erase, length, leb, ltb_ℤ, stoi, strcpy, text_eq, ◌>>=◌,
  if◌then◌else◌,
}
use oh_my_db.Consensus.{
  Text, ServerInfo, no_server, ErrorCode, ok, not_leader, prev_not_committed_timeout,
  cur_not_committed_timeout, server_exists, server_not_found, other, unlisted, AddServerParams,
  AddServerRet, RemoveServerParams, RemoveServerRet,
}
use oh_my_db.Wire.Members.{ip_size, name_size}
use oh_my_db.Config.{parse_config, name_size as info_name_size}

abbrev pub config_header : Text
config_header = codes "id,name,intf_ip,raft_port,db_port"

-- A line of the file, without its newline.
unfoldable pub config_line : ServerInfo → Text
config_line info =
    to_string info.id
    ++ 44
      ∷ (info.name
          ++ 44 ∷ (info.ip ++ 44 ∷ (to_string info.raft_port ++ 44 ∷ to_string info.db_port)))

unfoldable pub config_lines : Map ServerInfo → Text
unfolding config_line
config_lines [] = []
config_lines ((id, info) ∷ servers) = config_line info ++ 10 ∷ config_lines servers

-- The content of the file that `WriteConfig` writes.
unfoldable pub config_text : Map ServerInfo → Text
unfolding config_lines
config_text servers = config_header ++ 10 ∷ config_lines servers

-- `WriteConfig`: the content of the file afterwards, and the result. A file that does not open stays
-- as it is.
unfoldable pub write_config : Bool → Text → Map ServerInfo → Text × Bool
unfolding config_text
write_config is_open file servers = if is_open then (config_text servers, true) else (file, false)

-- `Admin`, with the address that its client is connected to.
pub record Admin : Type 0 where
  pub servers : Map ServerInfo
  pub client : Text

unfoldable pub raft_addr : Text → ℤ → Text
raft_addr ip raft_port = ip ++ 58 ∷ to_string raft_port

-- `SwitchClient` to a server of the list. `operator[]` adds a missing one.
unfoldable pub switch_client : ℤ → Admin → Admin
unfolding raft_addr
switch_client id a =
    let info = find_or id no_server a.servers in
    record {
      servers = if contains id a.servers then a.servers else insert id no_server a.servers;
      client = raft_addr info.ip info.raft_port;
    }

-- The address of a new `Admin`
abbrev pub first_client : Text
first_client = codes "10.10.1.1:1234"

-- What the code of a reply tells the loop; `undefined` is a branch that must not be reached.
pub data Outcome : Type 0 where
  finish : Bool → Outcome
  ask_leader ask_again undefined : Outcome

unfoldable pub add_outcome : ErrorCode → Outcome
add_outcome ok = finish true
add_outcome not_leader = ask_leader
add_outcome prev_not_committed_timeout = ask_again
add_outcome cur_not_committed_timeout = ask_again
add_outcome server_exists = finish true
add_outcome server_not_found = undefined
add_outcome other = ask_again
add_outcome (unlisted _) = ask_again

unfoldable pub remove_outcome : ErrorCode → Outcome
remove_outcome ok = finish true
remove_outcome not_leader = ask_leader
remove_outcome prev_not_committed_timeout = ask_again
remove_outcome cur_not_committed_timeout = ask_again
remove_outcome server_not_found = finish false
remove_outcome server_exists = undefined
remove_outcome other = ask_again
remove_outcome (unlisted _) = ask_again

-- The loop of `AddServer` and of `RemoveServer`, with `n` tries left: `outcome` reads a reply, `addr`
-- is the address that it names. None is undefined behaviour.
module _ {R : Type 0} (outcome : R → Outcome) (addr : R → Text) (reply : ℕ → Text → Option R) where
  unfoldable pub search : ℕ → ℕ → ℕ → Admin → Option Bool
  search i zero server_id a = some false
  search i (suc n) server_id a = elim (reply i a.client) [
    | none ↦
        if leb (length a.servers) (server_id + 1)
        then some false
        else search (suc i) n (server_id + 1) (switch_client (pos (server_id + 1)) a)
    | some r ↦ elim (outcome r) [
      | finish b ↦ some b
      | ask_leader ↦ search (suc i) n server_id (record a { client = addr r })
      | ask_again ↦ search (suc i) n server_id a
      | undefined ↦ none
    ]
  ]

-- `MAX_TRIES`
abbrev pub max_tries : ℕ
max_tries = 1000

abbrev pub AddCall : Type 0
AddCall = ℕ → Text → AddServerParams → Option AddServerRet

abbrev pub RemoveCall : Type 0
RemoveCall = ℕ → Text → RemoveServerParams → Option RemoveServerRet

-- `Admin::AddServer`; the new server must answer a ping.
unfoldable pub add_server : (Text → ℤ) → AddCall → AddServerParams → Admin → Option Bool
unfolding add_outcome raft_addr switch_client
add_server pinged call args a =
    if ltb_ℤ (pinged (raft_addr args.ip args.raft_port)) (pos 0) then some false else (do
      ip ← strcpy ip_size args.ip
      name ← strcpy name_size args.name
      search (λ r. add_outcome r.error_code) (λ r. r.leader_addr)
          (λ i to. call i to (record args { ip = ip; name = name })) 0 max_tries 0
          (switch_client (pos 0) a))

-- `Admin::RemoveServer`
unfoldable pub remove_server : RemoveCall → RemoveServerParams → Admin → Option Bool
unfolding remove_outcome switch_client
remove_server call args a =
    search (λ r. remove_outcome r.error_code) (λ r. r.leader_addr) (λ i to. call i to args) 0
      max_tries 0 (switch_client (pos 0) a)

-- The entry that `main` puts into the file; the name's array has 25 bytes there.
unfoldable pub new_info : AddServerParams → Option ServerInfo
new_info args = do
  ip ← strcpy ip_size args.ip
  name ← strcpy info_name_size args.name
  some (record {
    id = args.server_id;
    ip = ip;
    raft_port = args.raft_port;
    db_port = args.db_port;
    name = name;
  })

-- `main` for `--op add` and `--op rm`, after the arguments are parsed: the file of the servers before
-- and after.
unfoldable pub run_add : (Text → ℤ) → AddCall → Bool → AddServerParams → Text → Option Text
unfolding add_server new_info write_config
run_add pinged call is_open args file = do
  servers ← parse_config file
  added ← add_server pinged call args (record { servers = servers; client = first_client })
  if added
      then (do
        info ← new_info args
        some (write_config is_open file (insert args.server_id info servers)).0)
      else some file

unfoldable pub run_remove : RemoveCall → Bool → RemoveServerParams → Text → Option Text
unfolding remove_server write_config
run_remove call is_open args file = do
  servers ← parse_config file
  removed ← remove_server call args (record { servers = servers; client = first_client })
  if removed then some (write_config is_open file (erase args.server_id servers)).0 else some file
