-- ===== src/Client/Retry.antt =====
-- What the retry loops of ohmydb/ReplicatedDB.H answer.
use oh_my_db.Prelude.{
  ℕ, zero, suc, ◌+◌, ◌≤◌, ◌<◌, ◌≡◌, ◌≢◌, refl, sym, ap, ◌∙◌, ◌⊎◌, inl, inr, ℤ, Bool, true, false,
  Option, none, some, Option-cases, Bool-cases, some-eq-some, arith, ◌==ℤ◌,
}
use oh_my_db.Consensus.{Text}
use oh_my_db.Promise.{done}
use oh_my_db.Manager.{DbCode, db_ok, db_not_leader, key_not_found, unnamed, Ret, finish_put}
use oh_my_db.Client.{
  Finder, Verdict, retry, return, is_not_leader, try_once, search_leader, finish_get,
  finish_put as client_finish_put, client_put, db_get, db_put, max_tries,
}

-- A try, the `at`-th of all, whose reply settles the search with `a`.
pub record Settled {A : Type 0} (finish : Ret → Option A) (reply : ℕ → Text → Option Ret) (i n : ℕ)
    (a : A) : Type 0 where
  pub at : ℕ
  pub addr : Text
  pub ret : Ret
  pub in_time : (i ≤ at) × (at < i + n)
  pub heard : reply at addr ≡ some ret
  pub final : finish ret ≡ some a

Verdict-cases :
    {A : Type 0} (v : Verdict A) → ((f : Finder) × (v ≡ retry f)) ⊎ ((a : A) × (v ≡ return a))
Verdict-cases (retry f) = inl (f, refl)
Verdict-cases (return a) = inr (a, refl)

retry-return : {A : Type 0} (f : Finder) (a : A) → retry f ≢ return a
retry-return f a = λ h. ground (arith, h)

return-eq : {A : Type 0} (a b : A) → return a ≡ return b → a ≡ b
return-eq a b h = cc h

module _ {A : Type 0} (finish : Ret → Option A) where
  try_once-return :
      (o : Option Ret) (f : Finder) (a : A)
      → try_once finish o f ≡ return a
      → (r : Ret) × (o ≡ some r) × (finish r ≡ some a)
  unfolding try_once
  try_once-return none f a h = absurd (retry-return _ a h)
  try_once-return (some r) f a h = elim (Bool-cases (is_not_leader r.error_code)) [
    | inl e ↦ absurd (retry-return _ a (rw e at h))
    | inr e ↦ elim (Option-cases (finish r)) [
      | inl k ↦ absurd (retry-return _ a (rw (e, k) at h))
      | inr (b, k) ↦ (r, refl, k ∙ ap some (return-eq b a (rw (e, k) at h)))
    ]
  ]

  search_leader-Settled :
      (failed : A) (reply : ℕ → Text → Option Ret) (i n : ℕ) (f : Finder)
      → (search_leader finish failed reply i n f ≡ failed)
        ⊎ Settled finish reply i n (search_leader finish failed reply i n f)
  unfolding search_leader
  search_leader-Settled failed reply i zero f = inl refl
  search_leader-Settled failed reply i (suc n) f =
      elim (Verdict-cases (try_once finish (reply i f.server_addr) f)) [
        | inl (g, e) ↦
            rw (e, search_leader)
              (elim (search_leader-Settled failed reply (suc i) n g) [
                | inl k ↦ inl k
                | inr k ↦ inr (record {
                  at = k.at;
                  addr = k.addr;
                  ret = k.ret;
                  in_time = (ground (arith, k.in_time), ground (arith, k.in_time));
                  heard = k.heard;
                  final = k.final;
                })
              ])
        | inr (a, e) ↦
            let (r, heard, final) = try_once-return (reply i f.server_addr) f a e in
            rw (e, search_leader)
              (inr (record {
                at = i;
                addr = f.server_addr;
                ret = r;
                in_time = (ground arith, ground arith);
                heard = heard;
                final = final;
              }))
      ]

  pub search_leader-first :
      (failed : A) (reply : ℕ → Text → Option Ret) (a : A) (i n : ℕ) (f : Finder)
      → try_once finish (reply i f.server_addr) f ≡ return a
      → search_leader finish failed reply i (suc n) f ≡ a
  unfolding search_leader
  search_leader-first failed reply a i n f e = rw (e, search_leader) refl

  pub search_leader-next :
      (failed : A) (reply : ℕ → Text → Option Ret) (i n : ℕ) (f g : Finder)
      → try_once finish (reply i f.server_addr) f ≡ retry g
      → search_leader finish failed reply i (suc n) f
        ≡ search_leader finish failed reply (suc i) n g
  unfolding search_leader
  search_leader-next failed reply i n f g e = rw (e, search_leader) refl

finish_get-value :
    (r : Ret) (v : ℤ) → finish_get r ≡ some (some v) → (r.error_code ≡ db_ok) × (r.value ≡ v)
unfolding finish_get
finish_get-value r v h = code r.error_code refl
  where
    code : (c : DbCode) → r.error_code ≡ c → (r.error_code ≡ db_ok) × (r.value ≡ v)
    code db_ok e = (e, some-eq-some (some-eq-some (rw (e, finish_get) at h)))
    code db_not_leader e = absurd (ground (arith, rw (e, finish_get) at h))
    code key_not_found e = absurd (ground (arith, rw (e, finish_get) at h))
    code (unnamed n) e = absurd (ground (arith, rw (e, finish_get) at h))

-- A value that `get` returns is the value of a reply with the code OK to one of its 1000 tries.
pub db_get_sound :
    (reply : ℕ → Text → Option Ret) (f : Finder) (v : ℤ)
    → db_get reply f ≡ some v
    → (at : ℕ) × (addr : Text) × (r : Ret) × (at < max_tries)
      × (reply at addr ≡ some r)
      × (r.error_code ≡ db_ok)
      × (r.value ≡ v)
unfolding db_get
db_get_sound reply f v h = elim (search_leader-Settled finish_get none reply 0 max_tries f) [
  | inl k ↦ absurd (ground (arith, sym k ∙ h))
  | inr k ↦
      let (c, same) = finish_get-value k.ret v (k.final ∙ ap some h) in
      (k.at, k.addr, k.ret, ground (arith, k.in_time), k.heard, c, same)
]

-- When the first server that a client asks executes its put, the client reports success, also if the
-- put failed there: the outcome does not travel.
pub db_put-blind :
    (reply : ℕ → Text → Option Ret) (f : Finder) (stored : Bool)
    → reply 0 f.server_addr ≡ finish_put (done stored)
    → db_put reply f ≡ true
unfolding db_put try_once client_finish_put is_not_leader client_put finish_put ◌==ℤ◌
db_put-blind reply f stored h =
    search_leader-first client_finish_put false (λ i addr. client_put (reply i addr)) true 0 999 f
      (rw h refl)
