-- ===== src/Wire/Members/Trip.antt =====
-- A call of `AddServer` or `RemoveServer` through ohmyserver/RaftServiceImpl.C, from the client's
-- parameters to its result.
use oh_my_db.Prelude.{
  ℕ, zero, suc, ◌≤◌, ◌≡◌, refl, subst, inl, inr, ◌⊎◌, ℤ, Option, none, some, Option-cases,
  Bool-cases, ◌>>=◌, length, c_str, strcpy, FitsArray, strcpy-FitsArray, arith, ◌==ℤ◌, contains,
}
use oh_my_db.Consensus.{
  ErrorCode, ok, not_leader, prev_not_committed_timeout, cur_not_committed_timeout, server_exists,
  server_not_found, other, unlisted, AddServerParams, RemoveServerParams, Operation,
}
use oh_my_db.Raft.{Replica}
use oh_my_db.Raft.Leader.{is_leader}
use oh_my_db.Raft.Membership.{
  Look, go_on, look_again, give_up, wait_loop, await_prev, await_added, await_removed, wait_iters,
  refuse, submit_and_wait, change_config, handle_add_server, handle_remove_server, prev_committed,
  cur_committed, leave_cluster, add_op, remove_op,
}
use oh_my_db.Raft.Threads.{submit}
use oh_my_db.Wire.Members.{
  code_number, number_code, AddServerRequest, ip_size, name_size, change_response,
  add_server_params, serve_add_server, serve_remove_server, add_server_request, send_add_server,
  send_remove_server,
}

abbrev IsListed : ErrorCode → Type 0
IsListed (unlisted _) = ⊥
IsListed _ = Unit

number_code-code_number : (c : ErrorCode) → IsListed c → number_code (code_number c) ≡ c
unfolding number_code code_number ◌==ℤ◌
number_code-code_number ok h = refl
number_code-code_number not_leader h = refl
number_code-code_number prev_not_committed_timeout h = refl
number_code-code_number cur_not_committed_timeout h = refl
number_code-code_number server_exists h = refl
number_code-code_number server_not_found h = refl
number_code-code_number other h = refl
number_code-code_number (unlisted n) h = absurd h

abbrev MaybeListed : Option ErrorCode → Type 0
MaybeListed none = Unit
MaybeListed (some c) = IsListed c

abbrev LookListed : Look → Type 0
LookListed (give_up c) = IsListed c
LookListed _ = Unit

wait_loop-MaybeListed :
    (look : Replica → Look) (timeout : ErrorCode) (i n : ℕ) (seen : ℕ → Replica)
    → ((s : Replica) → LookListed (look s))
    → IsListed timeout
    → MaybeListed (wait_loop look timeout i n seen).1
unfolding wait_loop
wait_loop-MaybeListed look timeout i zero seen fine late = late
wait_loop-MaybeListed look timeout i (suc zero) seen fine late = go (look (seen i)) refl
  where
    go : (l : Look) → look (seen i) ≡ l → MaybeListed (wait_loop look timeout i 1 seen).1
    go go_on e = rw (e, wait_loop) tt
    go (give_up code) e = rw (e, wait_loop) (subst LookListed e (fine (seen i)))
    go look_again e = rw (e, wait_loop) late
wait_loop-MaybeListed look timeout i (suc (suc n)) seen fine late =
    go (wait_loop-MaybeListed look timeout (suc i) (suc n) seen fine late) (look (seen i)) refl
  where
    go :
        MaybeListed (wait_loop look timeout (suc i) (suc n) seen).1
        → (l : Look) → look (seen i) ≡ l
        → MaybeListed (wait_loop look timeout i (suc (suc n)) seen).1
    go later go_on e = rw (e, wait_loop) tt
    go later (give_up code) e = rw (e, wait_loop) (subst LookListed e (fine (seen i)))
    go later look_again e = rw (e, wait_loop) later

await_prev-LookListed : (s : Replica) → LookListed (await_prev s)
unfolding await_prev
await_prev-LookListed s = elim (Bool-cases (prev_committed s)) [ inl e ↦ rw e tt | inr e ↦ rw e tt ]

await_added-LookListed : (prev : ℤ) (s : Replica) → LookListed (await_added prev s)
unfolding await_added
await_added-LookListed prev s = elim (Bool-cases (is_leader s.role)) [
  | inr l ↦ rw l tt
  | inl l ↦ elim (Bool-cases (cur_committed prev s)) [ inl e ↦ rw (l, e) tt | inr e ↦ rw (l, e) tt ]
]

await_removed-LookListed : (prev : ℤ) (s : Replica) → LookListed (await_removed prev s)
unfolding await_removed
await_removed-LookListed prev s = elim (Bool-cases (cur_committed prev s)) [
  | inl e ↦ rw e tt
  | inr e ↦ rw e tt
]

refuse-IsListed :
    (code : ErrorCode) (submitted : Option Operation) (s : Replica)
    → IsListed code
    → IsListed (refuse code submitted s).error_code
unfolding refuse
refuse-IsListed code submitted s h = h

module _ (op : Operation) (look : ℤ → Replica → Look) (finish : Replica → Replica)
    (seen : ℕ → Replica) (fine : (prev : ℤ) (s : Replica) → LookListed (look prev s)) where
  submit_and_wait-IsListed :
      (prev : ℤ) (i : ℕ) → IsListed (submit_and_wait op prev (look prev) finish i seen).error_code
  unfolding submit_and_wait
  submit_and_wait-IsListed prev i = elim (Bool-cases (submit op (seen i)).1.0) [
    | inr e ↦ rw (e, submit_and_wait) (refuse-IsListed other none (seen i) tt)
    | inl e ↦
        let w = wait_loop (look prev) cur_not_committed_timeout (suc i) wait_iters seen in
        let l =
          wait_loop-MaybeListed (look prev) cur_not_committed_timeout (suc i) wait_iters seen
            (fine prev) tt in
        elim (Option-cases w.1) [
          | inl k ↦ rw (e, k, submit_and_wait) tt
          | inr (code, k) ↦
              rw (e, k, submit_and_wait)
                (refuse-IsListed code (some op) (seen w.0) (subst MaybeListed k l))
        ]
  ]

  change_config-IsListed : IsListed (change_config op look finish seen).error_code
  unfolding change_config
  change_config-IsListed =
      let w = wait_loop await_prev prev_not_committed_timeout 1 wait_iters seen in
      let l =
        wait_loop-MaybeListed await_prev prev_not_committed_timeout 1 wait_iters seen
          await_prev-LookListed tt in
      elim (Option-cases w.1) [
        | inl k ↦
            rw (k, change_config)
              (submit_and_wait-IsListed (seen w.0).last_config_change_index (suc w.0))
        | inr (code, k) ↦
            rw (k, change_config) (refuse-IsListed code none (seen w.0) (subst MaybeListed k l))
      ]

handle_add_server-IsListed :
    (args : AddServerParams) (seen : ℕ → Replica)
    → IsListed (handle_add_server args seen).error_code
unfolding handle_add_server
handle_add_server-IsListed args seen = elim (Bool-cases (is_leader (seen 0).role)) [
  | inr l ↦ rw l (refuse-IsListed not_leader none (seen 0) tt)
  | inl l ↦ elim (Bool-cases (contains args.server_id (seen 0).cluster_config)) [
    | inl e ↦ rw (l, e) (refuse-IsListed server_exists none (seen 0) tt)
    | inr e ↦
        rw (l, e)
          (change_config-IsListed (add_op args) await_added (λ s. s) seen await_added-LookListed)
  ]
]

handle_remove_server-IsListed :
    (now : ℕ) (args : RemoveServerParams) (seen : ℕ → Replica)
    → IsListed (handle_remove_server now args seen).error_code
unfolding handle_remove_server
handle_remove_server-IsListed now args seen = elim (Bool-cases (is_leader (seen 0).role)) [
  | inr l ↦ rw l (refuse-IsListed not_leader none (seen 0) tt)
  | inl l ↦ elim (Bool-cases (contains args.server_id (seen 0).cluster_config)) [
    | inr e ↦ rw (l, e) (refuse-IsListed server_not_found none (seen 0) tt)
    | inl e ↦
        rw (l, e)
          (change_config-IsListed (remove_op args) await_removed (leave_cluster now args.server_id)
            seen await_removed-LookListed)
  ]
]

-- A call of `AddServer` that reaches a server hands the client's own parameters to the handler there,
-- leaves the replica as the handler does and answers what it answers, if the address and the name fit the
-- arrays that hold them.
pub send_add_server-direct :
    (args : AddServerParams) (seen : ℕ → Replica)
    → FitsArray ip_size args.ip
    → FitsArray name_size args.name
    → (add_server_params (add_server_request args) ≡ some args)
      × (serve_add_server (add_server_request args) seen
          ≡ some
              ((handle_add_server args seen).left, change_response (handle_add_server args seen)))
      × (send_add_server
            (λ request. do (t, response) ← serve_add_server request seen; some response)
            args
          ≡ some (record {
            error_code = (handle_add_server args seen).error_code;
            leader_addr = (handle_add_server args seen).leader_addr;
          }))
unfolding send_add_server serve_add_server add_server_params add_server_request change_response
send_add_server-direct args seen fi fn =
    let ip = strcpy-FitsArray ip_size args.ip fi in
    let name = strcpy-FitsArray name_size args.name fn in
    (
      rw (ip, name) refl,
      rw (ip, name) refl,
      rw (ip, name) (rw (number_code-code_number _ (handle_add_server-IsListed args seen)) refl),
    )

-- A call of `RemoveServer` answers what the handler answers, whatever the id.
pub send_remove_server-direct :
    (now : ℕ) (args : RemoveServerParams) (seen : ℕ → Replica)
    → send_remove_server (λ request. some (serve_remove_server now request seen).1) args
      ≡ some (record {
        error_code = (handle_remove_server now args seen).error_code;
        leader_addr = (handle_remove_server now args seen).leader_addr;
      })
unfolding send_remove_server serve_remove_server change_response
send_remove_server-direct now args seen =
    rw (number_code-code_number _ (handle_remove_server-IsListed now args seen)) refl

-- An address or a name with 20 characters or more is written past the end of its array: the call has
-- no defined outcome.
pub serve_add_server-overflows :
    (request : AddServerRequest) (seen : ℕ → Replica)
    → (20 ≤ length (c_str request.ip)) ⊎ (20 ≤ length (c_str request.name))
    → serve_add_server request seen ≡ none
unfolding serve_add_server add_server_params strcpy
serve_add_server-overflows request seen h = ground (arith, h)
