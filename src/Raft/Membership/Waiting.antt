-- ===== src/Raft/Membership/Waiting.antt =====
-- The waits of `AddServer` and `RemoveServer` of ohmyraft/OhMyRaft.H: how they end, and the half of
-- the two handlers that they share.
use oh_my_db.Prelude.{
  ℕ, zero, suc, ◌+◌, ◌≤◌, ◌<◌, ◌≡◌, ◌≢◌, refl, ap, ◌∙◌, inl, inr, ℤ, some-eq-some, Option-cases,
  true, Option, none, some, Bool-cases, arith,
}
use oh_my_db.Consensus.{
  Operation, ErrorCode, ok, prev_not_committed_timeout, cur_not_committed_timeout, other,
}
use oh_my_db.Raft.{Replica}
use oh_my_db.Raft.Threads.{submit}
use oh_my_db.Raft.Membership.{
  Look, go_on, look_again, give_up, wait_loop, prev_committed, cur_committed, await_prev, Handled,
  refuse, wait_iters, submit_and_wait, change_config,
}

-- A loop that ended without an early return did so at one of its looks, which said so.
record Passed (look : Replica → Look) (i n : ℕ) (seen : ℕ → Replica) (j : ℕ) : Type 0 where
  first : i ≤ j
  last : j < i + n
  told : look (seen j) ≡ go_on

module _ (look : Replica → Look) (timeout : ErrorCode) (seen : ℕ → Replica) where
  at_once :
      (i n : ℕ)
      → look (seen i) ≡ go_on
      → Passed look i (suc n) seen (wait_loop look timeout i (suc n) seen).0
  unfolding wait_loop
  at_once i n e = rw (e, wait_loop) (record { first = ground arith; last = ground arith; told = e })

  wait_loop-Passed :
      (i n : ℕ)
      → (wait_loop look timeout i n seen).1 ≡ none
      → Passed look i n seen (wait_loop look timeout i n seen).0
  unfolding wait_loop
  wait_loop-Passed i zero h = absurd (ground arith)
  wait_loop-Passed i (suc zero) h = go (look (seen i)) refl
    where
      go : (l : Look) → look (seen i) ≡ l → Passed look i 1 seen (wait_loop look timeout i 1 seen).0
      go go_on e = at_once i 0 e
      go (give_up code) e = absurd (ground (arith, rw (e, wait_loop) at h))
      go look_again e = absurd (ground (arith, rw (e, wait_loop) at h))
  wait_loop-Passed i (suc (suc n)) h = go (wait_loop-Passed (suc i) (suc n)) (look (seen i)) refl
    where
      go :
          ((wait_loop look timeout (suc i) (suc n) seen).1 ≡ none
            → Passed look (suc i) (suc n) seen (wait_loop look timeout (suc i) (suc n) seen).0)
          → (l : Look) → look (seen i) ≡ l
          → Passed look i (suc (suc n)) seen (wait_loop look timeout i (suc (suc n)) seen).0
      go later go_on e = at_once i (suc n) e
      go later (give_up code) e = absurd (ground (arith, rw (e, wait_loop) at h))
      go later look_again e =
          let p = later (rw (e, wait_loop) at h) in
          rw (e, wait_loop)
            (record {
              first = ground (arith, p.first);
              last = ground (arith, p.last);
              told = p.told;
            })

  -- No early return says that all is well.
  wait_loop-code :
      ((s : Replica) → look s ≢ give_up ok)
      → timeout ≢ ok
      → (i n : ℕ) → (wait_loop look timeout i n seen).1 ≢ some ok
  unfolding wait_loop
  wait_loop-code fine late i zero = λ h. late (some-eq-some h)
  wait_loop-code fine late i (suc zero) = go (look (seen i)) refl
    where
      go : (l : Look) → look (seen i) ≡ l → (wait_loop look timeout i 1 seen).1 ≢ some ok
      go go_on e = rw (e, wait_loop) (ground arith)
      go (give_up code) e = rw (e, wait_loop) (λ h. fine (seen i) (e ∙ ap give_up (some-eq-some h)))
      go look_again e = rw (e, wait_loop) (λ h. late (some-eq-some h))
  wait_loop-code fine late i (suc (suc n)) =
      go (wait_loop-code fine late (suc i) (suc n)) (look (seen i)) refl
    where
      go :
          ((wait_loop look timeout (suc i) (suc n) seen).1 ≢ some ok)
          → (l : Look) → look (seen i) ≡ l
          → (wait_loop look timeout i (suc (suc n)) seen).1 ≢ some ok
      go later go_on e = rw (e, wait_loop) (ground arith)
      go later (give_up code) e =
          rw (e, wait_loop) (λ h. fine (seen i) (e ∙ ap give_up (some-eq-some h)))
      go later look_again e = rw (e, wait_loop) later

await_prev-go : (s : Replica) → await_prev s ≡ go_on → prev_committed s ≡ true
unfolding await_prev
await_prev-go s h = elim (Bool-cases (prev_committed s)) [
  | inl e ↦ e
  | inr e ↦ absurd (ground (arith, rw e at h))
]

await_prev-code : (s : Replica) → await_prev s ≢ give_up ok
unfolding await_prev
await_prev-code s = elim (Bool-cases (prev_committed s)) [
  | inl e ↦ rw e (ground arith)
  | inr e ↦ rw e (ground arith)
]

-- A configuration change was submitted and is committed: `found` is the look that saw the change
-- before it committed, `done` the one that saw this change committed.
pub record Committed (op : Operation) (finish : Replica → Replica) (seen : ℕ → Replica)
    (h : Handled) : Type 0 where
  pub found : ℕ
  pub seen_done : ℕ
  pub in_time : (1 ≤ found) × (found ≤ wait_iters)
  pub before : prev_committed (seen found) ≡ true
  pub order : (found < seen_done) × (seen_done ≤ found + 1 + wait_iters)
  pub after : cur_committed (seen found).last_config_change_index (seen seen_done) ≡ true
  pub op_submitted : h.submitted ≡ some op
  pub state : h.left ≡ finish (seen seen_done)

pub not_done :
    (code : ErrorCode) (submitted : Option Operation) (s : Replica)
    → code ≢ ok
    → (refuse code submitted s).error_code ≢ ok
unfolding refuse
not_done code submitted s h = h

-- How a wait for the commit of a change after index `prev` must read the state.
pub record IsWatch (look : ℤ → Replica → Look) : Type 0 where
  pub fine : (prev : ℤ) (s : Replica) → look prev s ≢ give_up ok
  pub told : (prev : ℤ) (s : Replica) → look prev s ≡ go_on → cur_committed prev s ≡ true

-- What the second half of a handler has done when it answers success.
record Finished (op : Operation) (finish : Replica → Replica) (prev : ℤ) (i : ℕ)
    (seen : ℕ → Replica) (h : Handled) : Type 0 where
  at : ℕ
  order : (i < at) × (at ≤ i + wait_iters)
  after : cur_committed prev (seen at) ≡ true
  op_submitted : h.submitted ≡ some op
  state : h.left ≡ finish (seen at)

module _ (op : Operation) (look : ℤ → Replica → Look) (finish : Replica → Replica)
    (seen : ℕ → Replica) (watch : IsWatch look) where
  submit_and_wait-Finished :
      (prev : ℤ) (i : ℕ)
      → (submit_and_wait op prev (look prev) finish i seen).error_code ≡ ok
      → Finished op finish prev i seen (submit_and_wait op prev (look prev) finish i seen)
  unfolding submit_and_wait
  submit_and_wait-Finished prev i h = elim (Bool-cases (submit op (seen i)).1.0) [
    | inr e ↦ absurd (not_done other none (seen i) (ground arith) (rw (e, submit_and_wait) at h))
    | inl e ↦
        let w = wait_loop (look prev) cur_not_committed_timeout (suc i) wait_iters seen in
        elim (Option-cases w.1) [
          | inr (code, k) ↦ absurd (
              not_done code (some op) (seen w.0)
                (λ c.
                  wait_loop-code (look prev) cur_not_committed_timeout seen (watch.fine prev)
                    (ground arith) (suc i) wait_iters (k ∙ ap some c))
                (rw (e, k, submit_and_wait) at h))
          | inl k ↦
              let p =
                wait_loop-Passed (look prev) cur_not_committed_timeout seen (suc i) wait_iters k in
              rw (e, k, submit_and_wait)
                (record {
                  at = w.0;
                  order = (ground (arith, p.first), ground (arith, p.last));
                  after = watch.told prev (seen w.0) p.told;
                  op_submitted = refl;
                  state = refl;
                })
        ]
  ]

  pub change_config-Committed :
      (change_config op look finish seen).error_code ≡ ok
      → Committed op finish seen (change_config op look finish seen)
  unfolding change_config
  change_config-Committed h =
      let w = wait_loop await_prev prev_not_committed_timeout 1 wait_iters seen in
      let prev = (seen w.0).last_config_change_index in
      elim (Option-cases w.1) [
        | inr (code, k) ↦ absurd (
            not_done code none (seen w.0)
              (λ c.
                wait_loop-code await_prev prev_not_committed_timeout seen await_prev-code
                  (ground arith) 1 wait_iters (k ∙ ap some c))
              (rw (k, change_config) at h))
        | inl k ↦
            let p = wait_loop-Passed await_prev prev_not_committed_timeout seen 1 wait_iters k in
            let f = submit_and_wait-Finished prev (suc w.0) (rw (k, change_config) at h) in
            rw (k, change_config)
              (record {
                found = w.0;
                seen_done = f.at;
                in_time = (p.first, ground (arith, p.last));
                before = await_prev-go (seen w.0) p.told;
                order = (ground (arith, f.order), ground (arith, f.order));
                after = f.after;
                op_submitted = f.op_submitted;
                state = f.state;
              })
      ]
