-- ===== src/Admin/Answer.antt =====
-- What `Admin::AddServer` and `Admin::RemoveServer` of ohmyserver/admin.cpp answer.
use oh_my_db.Prelude.{
  ℕ, ◌<◌, ◌≡◌, refl, inl, inr, ◌⊎◌, ℤ, pos, ltb_ℤ, Map, true, false, Option, none, some,
  some-eq-some, length, arith, Bool-cases, FitsArray, strcpy-FitsArray,
}
use oh_my_db.Consensus.{
  Text, ServerInfo, ErrorCode, ok, not_leader, prev_not_committed_timeout,
  cur_not_committed_timeout, server_exists, server_not_found, other, unlisted, AddServerParams,
  AddServerRet, RemoveServerParams, RemoveServerRet,
}
use oh_my_db.Wire.Members.{ip_size, name_size}
use oh_my_db.Admin.{
  Admin, Outcome, finish, AddCall, RemoveCall, add_outcome, remove_outcome, max_tries,
  switch_client, raft_addr, add_server, remove_server,
}
use oh_my_db.Admin.File.{start}
use oh_my_db.Admin.Search.{
  Ended, search-Ended, search_finds, addr_of, Numbered, switch_client-known,
}

add_outcome-true : (c : ErrorCode) → add_outcome c ≡ finish true → (c ≡ ok) ⊎ (c ≡ server_exists)
unfolding add_outcome
add_outcome-true ok h = inl refl
add_outcome-true server_exists h = inr refl
add_outcome-true not_leader h = absurd (ground (arith, h))
add_outcome-true prev_not_committed_timeout h = absurd (ground (arith, h))
add_outcome-true cur_not_committed_timeout h = absurd (ground (arith, h))
add_outcome-true server_not_found h = absurd (ground (arith, h))
add_outcome-true other h = absurd (ground (arith, h))
add_outcome-true (unlisted n) h = absurd (ground (arith, h))

-- The search that `AddServer` runs.
abbrev add_reply : AddCall → AddServerParams → ℕ → Text → Option AddServerRet
add_reply call args i to = call i to args

abbrev add_addr : AddServerRet → Text
add_addr r = r.leader_addr

abbrev add_code : AddServerRet → Outcome
add_code r = add_outcome r.error_code

-- When `AddServer` of the tool answers success, the new server answered its ping, and one of at most
-- 1000 calls with the tool's own parameters was answered with OK or with `SERVER_EXISTS`: for an
-- address and a name that fit their arrays.
pub add_server-answered :
    (pinged : Text → ℤ) (call : AddCall) (args : AddServerParams) (a : Admin)
    → FitsArray ip_size args.ip
    → FitsArray name_size args.name
    → add_server pinged call args a ≡ some true
    → (ltb_ℤ (pinged (raft_addr args.ip args.raft_port)) (pos 0) ≡ false)
      × ((at : ℕ) × (to : Text) × (r : AddServerRet) × (at < max_tries)
          × (call at to args ≡ some r)
          × ((r.error_code ≡ ok) ⊎ (r.error_code ≡ server_exists)))
unfolding add_server
add_server-answered pinged call args a fi fn h =
    elim (Bool-cases (ltb_ℤ (pinged (raft_addr args.ip args.raft_port)) (pos 0))) [
      | inl k ↦ absurd (ground (arith, some-eq-some (rw k at h)))
      | inr k ↦
          let e : Ended add_code add_addr (add_reply call args) true 0 max_tries =
            search-Ended add_code add_addr (add_reply call args) 0 max_tries 0
              (switch_client (pos 0) a)
              (rw (k, strcpy-FitsArray ip_size args.ip fi, strcpy-FitsArray name_size args.name fn)
                at h) in
          (
            k,
            (
              e.at,
              e.to,
              e.ret,
              omega (arith, e.in_time),
              e.heard,
              add_outcome-true e.ret.error_code e.final,
            ),
          )
    ]

-- If the servers of the list before the `j`-th never answer, and the `j`-th removes the server when
-- it is asked, `RemoveServer` of the tool succeeds: for a list with the ids from 0 up to `j`, and `j`
-- below 1000.
pub remove_server_finds :
    (call : RemoveCall) (args : RemoveServerParams) (servers : Map ServerInfo) (j : ℕ)
    (r : RemoveServerRet)
    → ((i k : ℕ) → k < j → call i (addr_of servers k) args ≡ none)
    → ((i : ℕ) → call i (addr_of servers j) args ≡ some r)
    → r.error_code ≡ ok
    → Numbered servers j
    → j < length servers
    → j < max_tries
    → remove_server call args (start servers) ≡ some true
unfolding remove_server
remove_server_finds call args servers j r dead live fine known short lt =
    rw (switch_client-known 0 (start servers) (known 0 (omega arith))) (
      search_finds (λ r. remove_outcome r.error_code) (λ r. r.leader_addr) (λ i to. call i to args)
        servers j r true dead live (rw (fine, remove_outcome) refl) known short j 0 max_tries 0
        (omega arith) lt)
