-- ===== src/Admin/Search.antt =====
-- The loops of `AddServer` and `RemoveServer` of ohmyserver/admin.cpp.
use oh_my_db.Prelude.{
  ℕ, zero, suc, ◌+◌, ◌≤◌, ◌<◌, ◌≡◌, refl, ap, sym, ◌∙◌, subst, inl, inr, pos, Map, Bool, true,
  false, Option, none, some, some-eq-some, Option-cases, arith, length, leb, contains, find_or,
  if◌then◌else◌,
}
use oh_my_db.Consensus.{Text, ServerInfo, no_server}
use oh_my_db.Admin.{
  Admin, Outcome, finish, ask_leader, ask_again, undefined, search, switch_client, raft_addr,
}

leb-false : (a b : ℕ) → b < a → leb a b ≡ false
leb-false a b h = ground arith

module _ {R : Type 0} (outcome : R → Outcome) (addr : R → Text) (reply : ℕ → Text → Option R) where
  search-none :
      (i n server_id : ℕ) (a : Admin)
      → reply i a.client ≡ none
      → search outcome addr reply i (suc n) server_id a ≡ (
          if leb (length a.servers) (server_id + 1)
          then some false
          else search outcome addr reply
              (suc i)
              n
              (server_id + 1)
              (switch_client (pos (server_id + 1)) a))
  unfolding search
  search-none i n server_id a e = rw (e, search) refl

  pub search-finish :
      (i n server_id : ℕ) (a : Admin) (r : R) (b : Bool)
      → reply i a.client ≡ some r
      → outcome r ≡ finish b
      → search outcome addr reply i (suc n) server_id a ≡ some b
  unfolding search
  search-finish i n server_id a r b e o = rw (e, o, search) refl

  -- A try whose reply ends the search with `b`.
  pub record Ended (b : Bool) (i n : ℕ) : Type 0 where
    pub at : ℕ
    pub to : Text
    pub ret : R
    pub in_time : (i ≤ at) × (at < i + n)
    pub heard : reply at to ≡ some ret
    pub final : outcome ret ≡ finish b

  Ended-later : (b : Bool) (i n : ℕ) → Ended b (suc i) n → Ended b i (suc n)
  Ended-later b i n e = record {
    at = e.at;
    to = e.to;
    ret = e.ret;
    in_time = (omega (arith, e.in_time), omega (arith, e.in_time));
    heard = e.heard;
    final = e.final;
  }

  -- A search that goes on after try `i` and answers `true`
  abbrev Later : ℕ → ℕ → Type 0
  Later i n =
      (k : ℕ) (a : Admin)
      → search outcome addr reply (suc i) n k a ≡ some true
      → Ended true i (suc n)

  -- A search that answers `true` had a reply that says so.
  pub search-Ended :
      (i n server_id : ℕ) (a : Admin)
      → search outcome addr reply i n server_id a ≡ some true
      → Ended true i n
  unfolding search
  search-Ended i zero server_id a h = absurd (ground (arith, h))
  search-Ended i (suc n) server_id a h =
      let later : Later i n = λ k a' e. Ended-later true i n (search-Ended (suc i) n k a' e) in
      elim (Option-cases (reply i a.client)) [
        | inl e ↦
            unheard later (leb (length a.servers) (server_id + 1))
              (sym (search-none i n server_id a e) ∙ h)
        | inr (r, e) ↦ heard later r e (outcome r) refl
      ]
    where
      unheard :
          Later i n
          → (over : Bool)
          → (if over
              then some false
              else search outcome addr reply
                  (suc i)
                  n
                  (server_id + 1)
                  (switch_client (pos (server_id + 1)) a))
            ≡ some true
          → Ended true i (suc n)
      unheard later true k = absurd (ground (arith, k))
      unheard later false k = later (server_id + 1) _ k

      heard :
          Later i n
          → (r : R) → reply i a.client ≡ some r
          → (o : Outcome) → outcome r ≡ o
          → Ended true i (suc n)
      heard later r e (finish b) o = record {
        at = i;
        to = a.client;
        ret = r;
        in_time = (omega arith, omega arith);
        heard = e;
        final = o ∙ ap finish (some-eq-some (sym (search-finish i n server_id a r b e o) ∙ h));
      }
      heard later r e ask_leader o = later server_id _ (rw (e, o, search) at h)
      heard later r e ask_again o = later server_id _ (rw (e, o, search) at h)
      heard later r e undefined o = absurd (ground (arith, rw (e, o, search) at h))

-- The address of the `k`-th server of a list.
abbrev pub addr_of : Map ServerInfo → ℕ → Text
addr_of servers k = let info = find_or (pos k) no_server servers in raft_addr info.ip info.raft_port

-- A list whose ids go from 0 to `last`, at least.
abbrev pub Numbered : Map ServerInfo → ℕ → Type 0
Numbered servers last = (k : ℕ) → k ≤ last → contains (pos k) servers ≡ true

pub switch_client-known :
    (k : ℕ) (a : Admin)
    → contains (pos k) a.servers ≡ true
    → switch_client (pos k) a ≡ record { servers = a.servers; client = addr_of a.servers k }
unfolding switch_client
switch_client-known k a h = rw h refl

module _ {R : Type 0} (outcome : R → Outcome) (addr : R → Text) (reply : ℕ → Text → Option R)
    (servers : Map ServerInfo) (j : ℕ) (r : R) (b : Bool) where
  -- The servers before the `j`-th never answer; the `j`-th answers every call with `r`, which ends a
  -- search.
  pub search_finds :
      ((i k : ℕ) → k < j → reply i (addr_of servers k) ≡ none)
      → ((i : ℕ) → reply i (addr_of servers j) ≡ some r)
      → outcome r ≡ finish b
      → Numbered servers j
      → j < length servers
      → (d i n k : ℕ) → k + d ≡ j
      → d < n
      → search outcome addr reply i n k (record { servers = servers; client = addr_of servers k })
        ≡ some b
  search_finds dead live final known short d i zero k at lt = absurd (omega arith)
  search_finds dead live final known short zero i (suc n) k at lt =
      search-finish outcome addr reply i n k _ r b
        (subst (λ x. reply i (addr_of servers x) ≡ some r) (omega arith) (live i)) final
  search_finds dead live final known short (suc d) i (suc n) k at lt =
      search-none outcome addr reply i n k _ (dead i k (omega arith))
      ∙ rw (leb-false (length servers) (k + 1) (omega arith)) (
          rw
            (switch_client-known (k + 1) (record { servers = servers; client = addr_of servers k })
              (known (k + 1) (omega arith)))
            (search_finds dead live final known short d (suc i) n (k + 1) (omega arith)
              (omega arith)))
