-- ===== src/Persist/Log.antt =====
-- ohmyraft/PersistentVector.H as its users see it: a vector of items, and the file with the items
-- that were written.
pub mod Saved
use oh_my_db.Prelude.{ℕ, List, [], ◌∷◌, ◌++◌, map, leb, ◌==◌, length, take, drop, if◌then◌else◌}

pub record LogVector {ℓ} (A : Type ℓ) : Type ℓ where
  pub items : List A
  pub persisted_items : ℕ
  pub file : List A

module _ {ℓ} {A : Type ℓ} where
  unfoldable pub push_back : A → LogVector A → LogVector A
  push_back a v = record v { items = v.items ++ a ∷ [] }

  -- to a size that is not above the present one
  unfoldable pub resize : ℕ → LogVector A → LogVector A
  resize n v =
      if leb n v.persisted_items
      then record { items = take n v.items; persisted_items = n; file = take n v.file }
      else record v { items = take n v.items }

  -- `preproc` is applied to the copy that is written
  unfoldable pub persist : (A → A) → LogVector A → LogVector A
  persist preproc v = if length v.items == v.persisted_items then v else record v {
    persisted_items = length v.items;
    file = v.file ++ map preproc (drop v.persisted_items v.items);
  }
