-- ===== src/Prelude/Dictionary.antt =====
-- `std::map<int32_t, V>`: an association list in the order of its keys, and its laws.
use mathlib.Core.Path.{◌≡◌, refl}
use mathlib.Core.Bool.{Bool, true, false}
use mathlib.Core.List.{List, [], ◌∷◌}
use mathlib.Core.Option.{Option, none, some}
use native.Mathlib.Omega.{arith}
use oh_my_db.Prelude.Tests.{if◌then◌else◌}
use oh_my_db.Prelude.Int.{ℤ, ltb_ℤ, ◌==ℤ◌, ==ℤ_iff}

abbrev pub Map {ℓ} : Type ℓ → Type ℓ
Map V = List (ℤ × V)

module _ {ℓ} {V : Type ℓ} where
  -- m.find( k )
  unfoldable pub find : ℤ → Map V → Option V
  find k [] = none
  find k ((j, v) ∷ m) = if j ==ℤ k then some v else find k m

  -- m.find( k ) != m.end()
  unfoldable pub contains : ℤ → Map V → Bool
  contains k [] = false
  contains k ((j, v) ∷ m) = if j ==ℤ k then true else contains k m

  -- m[k] = v
  unfoldable pub insert : ℤ → V → Map V → Map V
  insert k v [] = (k, v) ∷ []
  insert k v ((j, w) ∷ m) =
      let rest = insert k v m in
      if j ==ℤ k then (k, v) ∷ m else if ltb_ℤ k j then (k, v) ∷ (j, w) ∷ m else (j, w) ∷ rest

  -- m.erase( k )
  unfoldable pub erase : ℤ → Map V → Map V
  erase k [] = []
  erase k ((j, v) ∷ m) = let rest = erase k m in if j ==ℤ k then rest else (j, v) ∷ rest

  -- m[k], where `operator[]` of a missing key yields the value-initialised `d`
  unfoldable pub find_or : ℤ → V → Map V → V
  find_or k d [] = d
  find_or k d ((j, v) ∷ m) = if j ==ℤ k then v else find_or k d m

  pub find-insert :
      (k j : ℤ) (v : V) (m : Map V) → find j (insert k v m) ≡ (if k ==ℤ j then some v else find j m)
  unfolding find insert
  find-insert k j v [] = refl
  find-insert k j v ((i, w) ∷ m) =
      ground (arith, ==ℤ_iff k j, ==ℤ_iff i k, ==ℤ_iff i j, find-insert k j v m)

  pub find-erase : (k j : ℤ) (m : Map V) → find j (erase k m) ≡ (if k ==ℤ j then none else find j m)
  unfolding find erase
  find-erase k j [] = ground arith
  find-erase k j ((i, w) ∷ m) =
      ground (arith, ==ℤ_iff k j, ==ℤ_iff i k, ==ℤ_iff i j, find-erase k j m)

  pub contains-insert :
      (k j : ℤ) (v : V) (m : Map V)
      → contains j (insert k v m) ≡ (if k ==ℤ j then true else contains j m)
  unfolding contains insert
  contains-insert k j v [] = refl
  contains-insert k j v ((i, w) ∷ m) =
      ground (arith, ==ℤ_iff k j, ==ℤ_iff i k, ==ℤ_iff i j, contains-insert k j v m)

  pub contains-erase :
      (k j : ℤ) (m : Map V) → contains j (erase k m) ≡ (if k ==ℤ j then false else contains j m)
  unfolding contains erase
  contains-erase k j [] = ground arith
  contains-erase k j ((i, w) ∷ m) =
      ground (arith, ==ℤ_iff k j, ==ℤ_iff i k, ==ℤ_iff i j, contains-erase k j m)
