-- ===== src/Persist/Vector/Refinement.antt =====
-- The bytes of ohmyraft/PersistentVector.H against the whole records of Persist/Log.antt.
use oh_my_db.Prelude.{
  ℕ, zero, suc, ◌+◌, ◌-◌, ◌*◌, ◌≤◌, ◌≡◌, refl, sym, ap, ◌∙◌, inl, inr, List, [], ◌∷◌, ◌++◌, true,
  false, leb, ◌==◌, length, take, drop, append-nil, append_assoc, length-append, Bool-cases, arith,
  map, subst, take_all, take-append_add,
}
use native.Mathlib.Nat.{add-mul}
use oh_my_db.Persist.Log.{
  LogVector, push_back as push_back_log, persist as persist_log, resize as resize_log,
}
use oh_my_db.Persist.Vector.{
  Layout, IsLayout, DiskVector, zeros, truncate, push_back, resize, write_all, persist, setup,
}
use oh_my_db.Persist.Vector.Recovery.{flatten, setup-recovers}

-- The same items, as many of them written, and the file's bytes are those of its records.
pub record Represents {A : Type 0} (layout : Layout A) (v : DiskVector A) (w : LogVector A)
    : Type 0 where
  pub items : v.items ≡ w.items
  pub persisted : v.persisted_items ≡ w.persisted_items
  pub file : v.file ≡ flatten layout w.file

module _ {A : Type 0} (layout : Layout A) (sound : IsLayout layout) where
  flatten-append :
      (xs ys : List A) → flatten layout (xs ++ ys) ≡ flatten layout xs ++ flatten layout ys
  unfolding flatten
  flatten-append [] ys = refl
  flatten-append (a ∷ xs) ys =
      ap (λ l. layout.write a ++ l) (flatten-append xs ys)
      ∙ sym (append_assoc (layout.write a) (flatten layout xs) (flatten layout ys))

  write_all-flatten :
      (f : A → A) (xs : List A) (file : List ℕ)
      → write_all layout f xs file ≡ file ++ flatten layout (map f xs)
  unfolding write_all flatten
  write_all-flatten f [] file = sym (append-nil file)
  write_all-flatten f (a ∷ xs) file =
      write_all-flatten f xs (file ++ layout.write (f a))
      ∙ append_assoc file (layout.write (f a)) (flatten layout (map f xs))

  truncate-front :
      (c rest : List ℕ) (m n : ℕ)
      → length c ≡ m
      → truncate (m + n) (c ++ rest) ≡ c ++ truncate n rest
  unfolding truncate
  truncate-front c rest m n h =
      let gap : m + n - length (c ++ rest) ≡ n - length rest =
        omega (arith, h, length-append c rest) in
      rw gap (
        subst
          (λ k.
            take (k + n) (c ++ rest) ++ zeros (n - length rest)
            ≡ c ++ (take n rest ++ zeros (n - length rest)))
          h (rw take-append_add (append_assoc c (take n rest) (zeros (n - length rest)))))

  times-suc : (n k : ℕ) → suc n * k ≡ k + n * k
  times-suc n k =
      let one_more : suc n ≡ 1 + n = omega arith in
      let once : 1 * k ≡ k = omega arith in
      ap (λ m. m * k) one_more ∙ add-mul 1 n k ∙ ap (λ m. m + n * k) once

  truncate-flatten :
      (n : ℕ) (xs : List A)
      → n ≤ length xs
      → truncate (n * layout.size) (flatten layout xs) ≡ flatten layout (take n xs)
  unfolding flatten truncate
  truncate-flatten zero xs h =
      let none_left : 0 * layout.size ≡ 0 = omega arith in
      let no_gap : 0 - length (flatten layout xs) ≡ 0 = omega arith in rw none_left (rw no_gap refl)
  truncate-flatten (suc n) [] h = absurd (ground arith)
  truncate-flatten (suc n) (a ∷ xs) h = rw (times-suc n layout.size) (
      truncate-front (layout.write a) (flatten layout xs) layout.size (n * layout.size)
        (sound.length-write a)
      ∙ ap (λ l. layout.write a ++ l) (truncate-flatten n xs (ground (arith, h))))

  push_back-Represents :
      (a : A) (v : DiskVector A) (w : LogVector A)
      → Represents layout v w
      → Represents layout (push_back a v) (push_back_log a w)
  unfolding push_back push_back_log
  push_back-Represents a v w h = record {
    items = ap (λ l. l ++ a ∷ []) h.items;
    persisted = h.persisted;
    file = h.file;
  }

  -- Cutting the bytes of the file cuts the records, if the file holds as many as count as written.
  pub resize-Represents :
      (n : ℕ) (v : DiskVector A) (w : LogVector A)
      → length w.file ≡ w.persisted_items
      → Represents layout v w
      → Represents layout (resize layout n v) (resize_log n w)
  unfolding resize resize_log
  resize-Represents n v w count h = elim (Bool-cases (leb n w.persisted_items)) [
    | inl e ↦
        rw (h.persisted, e)
          (record {
            items = ap (take n) h.items;
            persisted = refl;
            file =
                ap (truncate (n * layout.size)) h.file
                ∙ truncate-flatten n w.file (ground (arith, count));
          })
    | inr e ↦
        rw (h.persisted, e)
          (record { items = ap (take n) h.items; persisted = refl; file = h.file })
  ]

  -- Writing the bytes of the items that are not written yet appends their records to the file, if no
  -- more items count as written than there are.
  pub persist-Represents :
      (f : A → A) (v : DiskVector A) (w : LogVector A)
      → w.persisted_items ≤ length w.items
      → Represents layout v w
      → Represents layout (persist layout f v) (persist_log f w)
  unfolding persist persist_log resize
  persist-Represents f v w fits h = elim (Bool-cases (length w.items == w.persisted_items)) [
    | inl e ↦
        rw (h.items, h.persisted, e) (record { items = refl; persisted = refl; file = h.file })
    | inr e ↦
        rw (h.items, h.persisted, e, larger e)
          (record {
            items = all;
            persisted = refl;
            file =
                ap (λ l. write_all layout f (drop w.persisted_items l) v.file) all
                ∙ write_all-flatten f (drop w.persisted_items w.items) v.file
                ∙ ap (λ l. l ++ flatten layout (map f (drop w.persisted_items w.items))) h.file
                ∙ sym (flatten-append w.file (map f (drop w.persisted_items w.items)));
          })
  ]
    where
      all : take (length w.items) w.items ≡ w.items
      all = take_all (length w.items) w.items (omega arith)

      larger :
          (length w.items == w.persisted_items) ≡ false
          → leb (length w.items) w.persisted_items ≡ false
      larger e = ground (arith, fits)

-- After the log of whole records is saved, its bytes are read back by the next start as what the file
-- of records holds.
pub setup-Represents :
    {A : Type 0} (layout : Layout A) (v : DiskVector A) (w : LogVector A)
    → IsLayout layout
    → Represents layout v w
    → (setup layout true v.file).items ≡ w.file
setup-Represents layout v w sound h =
    ap (λ b. (setup layout true b).items) (h.file ∙ sym (append-nil (flatten layout w.file)))
    ∙ setup-recovers layout sound w.file [] sound.positive
