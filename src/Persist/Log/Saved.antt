-- ===== src/Persist/Log/Saved.antt =====
-- When the file of ohmyraft/PersistentVector.H holds what the vector holds.
use mathlib.Core.List.{map-append}
use oh_my_db.Prelude.{
  ℕ, ◌≤◌, ◌≡◌, refl, sym, ap, ◌∙◌, inl, inr, [], ◌∷◌, ◌++◌, map, length, take, drop, take_all,
  take-take, take-append_le, take-append-drop, map-take, length-take, length-append, leb, ◌==◌,
  arith, Bool-cases,
}
use oh_my_db.Persist.Log.{LogVector, push_back, resize, persist}

module _ {ℓ} {A : Type ℓ} (f : A → A) where
  -- The file holds the items that count as written, each as `preproc` leaves it.
  pub record IsConsistent (v : LogVector A) : Type ℓ where
    pub written : v.persisted_items ≤ length v.items
    pub file : v.file ≡ map f (take v.persisted_items v.items)

  -- All items count as written.
  pub record IsSaved (v : LogVector A) : Type ℓ where
    pub written : v.persisted_items ≡ length v.items
    pub file : v.file ≡ map f v.items

  pub IsSaved-IsConsistent : (v : LogVector A) → IsSaved v → IsConsistent v
  IsSaved-IsConsistent v h = record {
    written = omega (arith, h.written);
    file =
        h.file ∙ ap (map f) (sym (take_all v.persisted_items v.items (omega (arith, h.written))));
  }

  pub push_back-IsConsistent :
      (a : A) (v : LogVector A) → IsConsistent v → IsConsistent (push_back a v)
  unfolding push_back
  push_back-IsConsistent a v h = record {
    written = omega (arith, length-append v.items (a ∷ []), h.written);
    file = h.file ∙ ap (map f) (sym (take-append_le v.persisted_items v.items (a ∷ []) h.written));
  }

  pub resize-IsConsistent : (n : ℕ) (v : LogVector A) → IsConsistent v → IsConsistent (resize n v)
  unfolding resize
  resize-IsConsistent n v h = elim (Bool-cases (leb n v.persisted_items)) [
    | inl e ↦ rw e (record {
      written =
          let le : n ≤ v.persisted_items = ground arith in
          omega (arith, length-take n v.items, h.written);
      file =
          ap (take n) h.file
          ∙ sym (map-take f n (take v.persisted_items v.items))
          ∙ ap (map f) (
              take-take n v.persisted_items v.items (ground arith)
              ∙ sym (take-take n n v.items (omega arith)));
    })
    | inr e ↦ rw e (record {
      written =
          let lt : v.persisted_items ≤ n = ground arith in
          omega (arith, length-take n v.items, h.written);
      file = h.file ∙ ap (map f) (sym (take-take v.persisted_items n v.items (ground arith)));
    })
  ]

  -- `persist` writes what is missing, so that the file holds every item.
  pub persist-IsSaved : (v : LogVector A) → IsConsistent v → IsSaved (persist f v)
  unfolding persist
  persist-IsSaved v h = elim (Bool-cases (length v.items == v.persisted_items)) [
    | inl e ↦
        let same : v.persisted_items ≡ length v.items = ground arith in
        rw e (record {
          written = same;
          file = h.file ∙ ap (map f) (take_all v.persisted_items v.items (omega (arith, same)));
        })
    | inr e ↦ rw e (record {
      written = refl;
      file =
          ap (λ xs. xs ++ map f (drop v.persisted_items v.items)) h.file
          ∙ sym (map-append f (take v.persisted_items v.items) (drop v.persisted_items v.items))
          ∙ ap (map f) (take-append-drop v.persisted_items v.items);
    })
  ]
