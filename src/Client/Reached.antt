-- ===== src/Client/Reached.antt =====
-- How a get of ohmydb/ReplicatedDB.H finds the leader.
use oh_my_db.Prelude.{
  ℕ, zero, suc, ◌+◌, ◌≤◌, ◌<◌, ◌≡◌, refl, sym, ap, ◌∙◌, ◌⊎◌, inl, inr, pos, true, Option, none,
  some, arith, subst, contains, find_or, length, Map,
}
use oh_my_db.Consensus.{Text, ServerInfo, no_server}
use oh_my_db.Manager.{db_ok, db_not_leader, Ret}
use oh_my_db.Client.{
  Finder, next_server, is_not_leader, try_once, search_leader, finish_get, db_get, db_addr,
  max_tries,
}
use oh_my_db.Client.Retry.{search_leader-first, search_leader-next}

-- A server that names the leader.
abbrev pub IsRedirect : Text → Option Ret → Type 0
IsRedirect leader o =
    (q : Ret) × (o ≡ some q) × (q.error_code ≡ db_not_leader) × (q.leader_addr ≡ leader)

-- The address of server `k` of the list.
abbrev pub addr_of : Map ServerInfo → ℕ → Text
addr_of servers k = db_addr (find_or (pos k) no_server servers)

module _ (reply : ℕ → Text → Option Ret) (leader : Text) (r : Ret)
    (leads : (i : ℕ) → reply i leader ≡ some r) (found : r.error_code ≡ db_ok) where
  -- At the leader's address the search ends.
  at_leader :
      (i n : ℕ) (f : Finder)
      → f.server_addr ≡ leader
      → search_leader finish_get none reply i (suc n) f ≡ some r.value
  unfolding try_once finish_get is_not_leader
  at_leader i n f e =
      search_leader-first finish_get none reply (some r.value) i n f
        (rw (e, leads i) (rw found refl))

  -- At the address of a server that names the leader it ends with the next try.
  at_redirect :
      (i n : ℕ) (f : Finder)
      → IsRedirect leader (reply i f.server_addr)
      → search_leader finish_get none reply i (suc (suc n)) f ≡ some r.value
  unfolding try_once is_not_leader
  at_redirect i n f (q, heard, code, named) =
      search_leader-next finish_get none reply i (suc n) f
        (record f { server_addr = q.leader_addr }) (rw heard (rw code refl))
      ∙ at_leader (suc i) n (record f { server_addr = q.leader_addr }) named

  at_dead :
      (i n : ℕ) (f : Finder)
      → reply i f.server_addr ≡ none
      → search_leader finish_get none reply i (suc n) f
        ≡ search_leader finish_get none reply (suc i) n (next_server f)
  unfolding try_once
  at_dead i n f dead = search_leader-next finish_get none reply i n f (next_server f) (rw dead refl)

  module _ (servers : Map ServerInfo) (live : ℕ) (inside : live < length servers)
      (known : (k : ℕ) → k ≤ live → contains (pos k) servers ≡ true)
      (others : (i : ℕ) (addr : Text)
        → (addr ≡ leader) ⊎ (IsRedirect leader (reply i addr) ⊎ (reply i addr ≡ none)))
      (answers : (i : ℕ)
        → (addr_of servers live ≡ leader)
          ⊎ IsRedirect leader (reply i (addr_of servers live))) where
    at_live :
        (i n : ℕ) (f : Finder)
        → f.server_addr ≡ addr_of servers live
        → search_leader finish_get none reply i (suc (suc n)) f ≡ some r.value
    at_live i n f e = elim (answers i) [
      | inl same ↦ at_leader i (suc n) f (e ∙ same)
      | inr named ↦ at_redirect i n f (subst (λ a. IsRedirect leader (reply i a)) (sym e) named)
    ]

    -- The address of the server that is asked after server `b - 1`.
    next_addr :
        (f : Finder)
        → f.server_info ≡ servers
        → (next_server f).server_addr ≡ addr_of servers f.backup_id
    unfolding next_server
    next_addr f e = rw e refl

    next_info :
        (f : Finder)
        → f.server_info ≡ servers
        → f.backup_id < live
        → ((next_server f).server_info ≡ servers) × ((next_server f).backup_id ≡ f.backup_id + 1)
    unfolding next_server
    next_info f e lt = rw (e, known f.backup_id (omega arith)) (refl, ground (arith, inside, lt))

    -- `d` servers are left before the one that is alive.
    search-reaches :
        (d i m : ℕ) (f : Finder)
        → d + 3 ≤ m
        → f.server_info ≡ servers
        → f.backup_id + d ≡ live
        → search_leader finish_get none reply i m f ≡ some r.value
    search-reaches d i zero f le e at = absurd (omega arith)
    search-reaches d i (suc zero) f le e at = absurd (omega arith)
    search-reaches d i (suc (suc zero)) f le e at = absurd (omega arith)
    search-reaches zero i (suc (suc (suc m))) f le e at = elim (others i f.server_addr) [
      | inl here ↦ at_leader i (suc (suc m)) f here
      | inr (inl named) ↦ at_redirect i (suc m) f named
      | inr (inr dead) ↦
          let here : f.backup_id ≡ live = omega arith in
          at_dead i (suc (suc m)) f dead
          ∙ at_live (suc i) m (next_server f) (next_addr f e ∙ ap (addr_of servers) here)
    ]
    search-reaches (suc d) i (suc (suc (suc m))) f le e at = elim (others i f.server_addr) [
      | inl here ↦ at_leader i (suc (suc m)) f here
      | inr (inl named) ↦ at_redirect i (suc m) f named
      | inr (inr dead) ↦
          let (info, next) = next_info f e (omega arith) in
          at_dead i (suc (suc m)) f dead
          ∙ search-reaches d (suc i) (suc (suc m)) (next_server f) (omega arith) info (omega arith)
    ]

-- A get finds the leader: where every call at the leader's address is answered OK with the same value, and
-- every other server gives no answer or names the leader, `get` returns that value, whatever address the
-- client starts with, if it would ask server 0 of its list next, one of the first 998 servers of the list
-- always answers, and the ids up to that one are in the list.
pub db_get_reaches :
    (reply : ℕ → Text → Option Ret) (f : Finder) (leader : Text) (r : Ret) (live : ℕ)
    → ((i : ℕ) → reply i leader ≡ some r)
    → r.error_code ≡ db_ok
    → ((i : ℕ) (addr : Text)
        → (addr ≡ leader) ⊎ (IsRedirect leader (reply i addr) ⊎ (reply i addr ≡ none)))
    → f.backup_id ≡ 0
    → live < length f.server_info
    → live < 998
    → ((k : ℕ) → k ≤ live → contains (pos k) f.server_info ≡ true)
    → ((i : ℕ)
        → (addr_of f.server_info live ≡ leader)
          ⊎ IsRedirect leader (reply i (addr_of f.server_info live)))
    → db_get reply f ≡ some r.value
unfolding db_get
db_get_reaches reply f leader r live leads found others first inside few known answers =
    search-reaches reply leader r leads found f.server_info live inside known others answers live 0
      max_tries f (omega arith) refl (omega (arith, first))
