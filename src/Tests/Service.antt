-- ===== src/Tests/Service.antt =====
-- Concrete runs of the transport, the replica's services and the client.
use oh_my_db.Prelude.{
  List, to_string, digits, ◌≤◌, ◌⊎◌, inr, ℤ, codes, text_eq, text_eq_iff, contains, if◌then◌else◌,
  Bool-cases, ℕ, zero, suc, ◌≡◌, refl, pos, minus_one, true, false, Option, none, some, [], ◌∷◌,
  arith, inl, find_or, ◌==ℤ◌, dec, inc, ◌>>=◌,
}
use oh_my_db.Consensus.{no_server, Text, get, without_promise, AppendEntriesParams}
use oh_my_db.Database.{proxy_put, proxy-IsLawful, proxy}
use oh_my_db.Promise.{PromiseStore, holds, without, get_and_remove, serve, value, done}
use oh_my_db.Operation.{perform, fulfil, execute}
use oh_my_db.Raft.{fresh_router}
use oh_my_db.Raft.Append.{append_entries}
use oh_my_db.Raft.Leader.{append_args, term_before, entries_at, entries_from}
use oh_my_db.Raft.Threads.Executed.{AlwaysStores, last_put, execute_all-get}
use oh_my_db.Raft.Threads.{execute_all}
use oh_my_db.Wire.{append_params, append_request, serve_append, route_append}
use oh_my_db.Wire.Trip.{peer_response, route_append-direct}
use oh_my_db.Manager.{Ret, db_ok, db_not_leader, finish_put}
use oh_my_db.Manager.Calls.{execute-last_put}
use oh_my_db.Client.{db_addr, Finder, db_get, db_put}
use oh_my_db.Client.Retry.{db_put-blind}
use oh_my_db.Client.Reached.{IsRedirect, addr_of, db_get_reaches}
use oh_my_db.Tests.{get_op, busy_leader, lagging, second_entry, put_op, three_servers}

abbrev shipment : AppendEntriesParams
shipment = record second_entry { leader_commit = minus_one }

sent : append_args (pos 2) (pos 1) busy_leader ≡ some shipment
unfolding append_args find_or term_before entries_at entries_from without_promise inc dec ◌==ℤ◌
sent = refl

route_append-direct_example :
    (append_params (append_request no_server shipment) ≡ shipment)
    × ((do (t, response) ← serve_append 5 (append_request no_server shipment) lagging; some t)
        ≡ (do (t, r) ← append_entries 5 shipment lagging; some t))
    × (route_append (peer_response 5 lagging) fresh_router no_server shipment
        ≡ (do (t, r) ← append_entries 5 shipment lagging; some r))
route_append-direct_example =
    route_append-direct no_server fresh_router 5 (pos 2) (pos 1) busy_leader lagging shipment
      (tt, (tt, tt)) sent

abbrev one_promise : PromiseStore
one_promise = record { inserted = 1; store = 0 ∷ []; served = []; dangling = [] }

abbrev finder : Finder
finder = record { server_addr = []; server_info = three_servers; backup_id = 0 }

abbrev four : Ret
four = record { error_code = db_ok; leader_addr = []; value = pos 4 }

abbrev leader_addr : Text
leader_addr = codes "1.2.3.4:20"

abbrev redirect : Ret
redirect = record { error_code = db_not_leader; leader_addr = leader_addr; value = pos 0 }

-- The address of the servers of the list
abbrev second : Text
second = codes "1:20"

-- The server that the client asks first is dead; those of the list know the leader.
abbrev replies : ℕ → Text → Option Ret
replies i addr =
    if text_eq addr leader_addr
    then some four
    else if text_eq addr second
    then some redirect
    else none

text_eq-leader : text_eq leader_addr leader_addr ≡ true
text_eq-leader = (text_eq_iff leader_addr leader_addr).1 refl

leader_answers : (i : ℕ) → replies i leader_addr ≡ some four
leader_answers i = rw text_eq-leader refl

redirects :
    (i : ℕ) (addr : Text)
    → (addr ≡ leader_addr) ⊎ (IsRedirect leader_addr (replies i addr) ⊎ (replies i addr ≡ none))
redirects i addr = elim (Bool-cases (text_eq addr leader_addr)) [
  | inl e ↦ inl ((text_eq_iff addr leader_addr).0 e)
  | inr e ↦ elim (Bool-cases (text_eq addr second)) [
    | inl k ↦ inr (inl (redirect, rw (e, k) refl, refl, refl))
    | inr k ↦ inr (inr (rw (e, k) refl))
  ]
]

first_two : (k : ℕ) → k ≤ 1 → contains (pos k) three_servers ≡ true
unfolding contains ◌==ℤ◌
first_two zero h = refl
first_two (suc zero) h = refl
first_two (suc (suc k)) h = absurd (omega arith)

second_redirects :
    (i : ℕ)
    → (addr_of three_servers 1 ≡ leader_addr)
      ⊎ IsRedirect leader_addr (replies i (addr_of three_servers 1))
unfolding text_eq find_or db_addr to_string digits ◌==ℤ◌
second_redirects i = inr (redirect, refl, refl, refl)

db_get_reaches_example : db_get replies finder ≡ some (pos 4)
db_get_reaches_example =
    db_get_reaches replies finder leader_addr four 1 leader_answers refl redirects refl
      (omega arith) (omega arith) first_two second_redirects

abbrev puts : ℕ → Text → Option Ret
puts i addr = finish_put (done false)

db_put-blind_example : db_put puts finder ≡ true
db_put-blind_example = db_put-blind puts finder false refl

always : AlwaysStores proxy
unfolding proxy_put
always k v m = refl

execute_all-get_example :
    proxy.get (pos 3) (execute_all proxy (put_op ∷ get_op ∷ []) ([], one_promise)).0 ≡ some (pos 4)
unfolding ◌==ℤ◌
execute_all-get_example =
    execute_all-get proxy (put_op ∷ get_op ∷ []) [] one_promise (pos 3) tt ((tt, tt), (tt, tt))
      proxy-IsLawful always

abbrev two_promises : PromiseStore
two_promises = record { inserted = 2; store = 0 ∷ 1 ∷ []; served = []; dangling = [] }

abbrev after_put : List (ℤ × ℤ) × PromiseStore
after_put = execute_all proxy (put_op ∷ []) ([], two_promises)

second_held : holds 1 after_put.1.store ≡ true
unfolding execute_all execute perform fulfil serve get_and_remove holds without proxy_put
second_held = refl

execute-last_put_example :
    execute proxy (record { kind = get (pos 3); promise_handle = some 1 }) after_put ≡ (
      after_put.0,
      record after_put.1 {
        store = without 1 after_put.1.store;
        served =
            (1, value (last_put (pos 3) (put_op ∷ []) (proxy.get (pos 3) []))) ∷ after_put.1.served;
      },
    )
execute-last_put_example =
    execute-last_put proxy (put_op ∷ []) [] two_promises (pos 3) 1 tt ((tt, tt), tt) proxy-IsLawful
      always second_held
