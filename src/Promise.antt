-- ===== src/Promise.antt =====
-- ohmyraft/PromiseStore.H: promises of results, filed under handles until they are taken out.
use oh_my_db.Prelude.{
  ℕ, ◌+◌, Bool, true, false, List, [], ◌∷◌, ◌++◌, ℤ, Option, ◌==◌, if◌then◌else◌,
}

-- `res_t`: the result of GET, or that of the other operations.
pub data OpResult : Type 0 where
  value : Option ℤ → OpResult
  done : Bool → OpResult

-- A handle is the number of the `insert` that gave it. `served` lists the `set_value` calls, and
-- `dangling` the handles that were taken out when they were not in the store: undefined in C++.
pub record PromiseStore : Type 0 where
  pub inserted : ℕ
  pub store : List ℕ
  pub served : List (ℕ × OpResult)
  pub dangling : List ℕ

abbrev pub empty_store : PromiseStore
empty_store = record { inserted = 0; store = []; served = []; dangling = [] }

unfoldable pub insert : PromiseStore → PromiseStore × ℕ
insert p = (record p { inserted = p.inserted + 1; store = p.store ++ p.inserted ∷ [] }, p.inserted)

unfoldable pub holds : ℕ → List ℕ → Bool
holds h [] = false
holds h (x ∷ xs) = if x == h then true else holds h xs

unfoldable pub without : ℕ → List ℕ → List ℕ
without h [] = []
without h (x ∷ xs) = let rest = without h xs in if x == h then xs else x ∷ rest

unfoldable pub get_and_remove : ℕ → PromiseStore → PromiseStore
get_and_remove h p =
    if holds h p.store
    then record p { store = without h p.store }
    else record p { dangling = h ∷ p.dangling }

-- `promise.set_value( r )` on the promise that `get_and_remove h` handed out
unfoldable pub serve : ℕ → OpResult → PromiseStore → PromiseStore
unfolding get_and_remove
serve h r p = let q = get_and_remove h p in record q { served = (h, r) ∷ q.served }
