-- ===== src/Persist/Vector/Recovery.antt =====
-- What ohmyraft/PersistentVector.H reads back from the bytes of its file.
use oh_my_db.Prelude.{
  ℕ, zero, suc, ◌+◌, ◌≤◌, ◌<◌, ◌≡◌, refl, ap, ◌∙◌, List, [], ◌∷◌, ◌++◌, true, false, leb, ◌==◌,
  length, take, drop, append-nil, append_assoc, length-append, length-drop, arith, subst, take_all,
  take-append-drop, length-take, drop-length_append,
}
use oh_my_db.Persist.Vector.{
  Layout, IsLayout, push_back, resize, write_all, persist, whole_records, setup,
}

-- The bytes of records, one after the other.
unfoldable pub flatten : {A : Type 0} → Layout A → List A → List ℕ
flatten layout [] = []
flatten layout (a ∷ xs) = layout.write a ++ flatten layout xs

module _ {A : Type 0} (layout : Layout A) (sound : IsLayout layout) where
  -- The bytes hold these records, and less than one more: for any fuel that is enough.
  Reads : List ℕ → List A → Type 0
  Reads bytes xs = (n : ℕ) → length bytes ≤ n → whole_records layout n bytes ≡ xs

  take-front : (a b : List ℕ) (n : ℕ) → length a ≡ n → take n (a ++ b) ≡ a
  take-front [] b zero h = refl
  take-front [] b (suc n) h = absurd (ground (arith, h))
  take-front (x ∷ a) b zero h = absurd (ground (arith, h))
  take-front (x ∷ a) b (suc n) h = ap (λ l. x ∷ l) (take-front a b n (omega (arith, h)))

  drop-front : (a b : List ℕ) (n : ℕ) → length a ≡ n → drop n (a ++ b) ≡ b
  drop-front [] b zero h = refl
  drop-front [] b (suc n) h = absurd (ground (arith, h))
  drop-front (x ∷ a) b zero h = absurd (ground (arith, h))
  drop-front (x ∷ a) b (suc n) h = drop-front a b n (omega (arith, h))

  Reads-short : (bytes : List ℕ) → length bytes < layout.size → Reads bytes []
  unfolding Reads whole_records
  Reads-short bytes h zero k = refl
  Reads-short bytes h (suc n) k = ground (arith, h)

  Reads-cons :
      (c rest : List ℕ) (xs : List A)
      → length c ≡ layout.size
      → Reads rest xs
      → Reads (c ++ rest) (layout.read c ∷ xs)
  unfolding Reads whole_records
  Reads-cons c rest xs h r zero k =
      absurd (omega (arith, h, k, sound.positive, length-append c rest))
  Reads-cons c rest xs h r (suc n) k =
      rw (fits, take-front c rest layout.size h, drop-front c rest layout.size h)
        (ap (λ l. layout.read c ∷ l)
          (r n (omega (arith, h, k, sound.positive, length-append c rest))))
    where
      fits : leb layout.size (length (c ++ rest)) ≡ true
      fits = ground (arith, h, length-append c rest)

  Reads-flatten :
      (xs ys : List A) (rest : List ℕ)
      → Reads rest ys
      → Reads (flatten layout xs ++ rest) (xs ++ ys)
  unfolding flatten
  Reads-flatten [] ys rest r = r
  Reads-flatten (a ∷ xs) ys rest r = rw (append_assoc (layout.write a) (flatten layout xs) rest) (
      subst (λ (b : A). Reads (layout.write a ++ (flatten layout xs ++ rest)) (b ∷ (xs ++ ys)))
        (sound.read-write a)
        (Reads-cons (layout.write a) (flatten layout xs ++ rest) (xs ++ ys) (sound.length-write a)
          (Reads-flatten xs ys rest r)))

  -- What was written whole is read back, record for record, and the bytes of a record that was not
  -- written whole at the end of the file are left out.
  pub setup-recovers :
      (xs : List A) (tail : List ℕ)
      → length tail < layout.size
      → (setup layout true (flatten layout xs ++ tail)).items ≡ xs
  unfolding setup Reads
  setup-recovers xs tail h =
      Reads-flatten xs [] tail (Reads-short tail h) (length (flatten layout xs ++ tail))
        (omega arith)
      ∙ append-nil xs

  file-persist_one :
      (xs : List A) (a : A) (bytes : List ℕ)
      → (persist layout
          (λ b. b)
          (push_back a (record { items = xs; persisted_items = length xs; file = bytes }))).file
        ≡ bytes ++ layout.write a
  unfolding persist push_back resize write_all
  file-persist_one xs a bytes =
      rw (more, stays)
        (rw (take_all (length (xs ++ a ∷ [])) (xs ++ a ∷ []) (omega arith), drop-length_append)
          refl)
    where
      more : (length (xs ++ a ∷ []) == length xs) ≡ false
      more = ground (arith, length-append xs (a ∷ []))

      stays : leb (length (xs ++ a ∷ [])) (length xs) ≡ false
      stays = ground (arith, length-append xs (a ∷ []))

  -- A record that is appended after a restart over a torn one is lost: the next restart reads the
  -- torn bytes with the first bytes of the new record as one record.
  pub setup-misreads :
      (xs : List A) (a : A) (tail : List ℕ)
      → 0 < length tail
      → length tail < layout.size
      → let v = setup layout true (flatten layout xs ++ tail) in
        (setup layout true (persist layout (λ b. b) (push_back a v)).file).items
        ≡ xs ++ layout.read (take layout.size (tail ++ layout.write a)) ∷ []
  unfolding setup Reads
  setup-misreads xs a tail torn short =
      let c = take layout.size (tail ++ layout.write a) in
      let over = drop layout.size (tail ++ layout.write a) in
      let bytes = flatten layout xs ++ tail in
      let whole : length (tail ++ layout.write a) ≡ length tail + layout.size =
        length-append tail (layout.write a) ∙ ap (λ k. length tail + k) (sound.length-write a) in
      let r : Reads (tail ++ layout.write a) (layout.read c ∷ []) =
        subst (λ b. Reads b (layout.read c ∷ []))
          (take-append-drop layout.size (tail ++ layout.write a))
          (Reads-cons c over []
            (omega (arith, whole, length-take layout.size (tail ++ layout.write a)))
            (Reads-short over
              (omega (arith, short, whole, length-drop layout.size (tail ++ layout.write a))))) in
      rw (file-persist_one (whole_records layout (length bytes) bytes) a bytes) (
        rw (append_assoc (flatten layout xs) tail (layout.write a))
          (Reads-flatten xs (layout.read c ∷ []) (tail ++ layout.write a) r _ (omega arith)))
