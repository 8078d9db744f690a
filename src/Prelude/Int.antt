-- ===== src/Prelude/Int.antt =====
-- Signed integers over the native numbers, under the library's names (its ℤ stands on the unary ℕ).
-- An `int32_t` of the program is read as the integer that it stands for: an overflow of signed
-- arithmetic is undefined in C++, so no wrap-around is modelled.
use Prim.Native.Nat.{ℕ, zero, suc, ◌+◌, ◌-◌, ◌≤◌, ◌<◌}
use mathlib.Core.Path.{◌≡◌, refl}
use mathlib.Core.Logic.{◌↔◌}
use mathlib.Core.Bool.{Bool, true, false}
use native.Mathlib.Omega.{arith}
use oh_my_db.Prelude.Tests.{ltb, leb, ◌==◌, if◌then◌else◌}

-- `negsuc n` is -(n + 1).
pub data ℤ : Type 0 where
  pos : ℕ → ℤ
  negsuc : ℕ → ℤ

unfoldable pub pos_part : ℤ → ℕ
pos_part (pos n) = n
pos_part (negsuc n) = 0

unfoldable pub neg_part : ℤ → ℕ
neg_part (pos n) = 0
neg_part (negsuc n) = suc n

-- The value that marks "none" in VotedFor, CommitIndex, LastApplied and the like.
abbrev pub minus_one : ℤ
minus_one = negsuc 0

unfoldable pub inc : ℤ → ℤ
inc (pos n) = pos (suc n)
inc (negsuc zero) = pos 0
inc (negsuc (suc n)) = negsuc n

unfoldable pub dec : ℤ → ℤ
dec (pos zero) = negsuc 0
dec (pos (suc n)) = pos n
dec (negsuc n) = negsuc (suc n)

infix 50 ◌≤ℤ◌ ◌<ℤ◌ ◌==ℤ◌
abbrev pub ◌≤ℤ◌ : ℤ → ℤ → Type 0
a ≤ℤ b = pos_part a + neg_part b ≤ pos_part b + neg_part a

abbrev pub ◌<ℤ◌ : ℤ → ℤ → Type 0
a <ℤ b = pos_part a + neg_part b < pos_part b + neg_part a

abbrev pub ltb_ℤ : ℤ → ℤ → Bool
ltb_ℤ a b = ltb (pos_part a + neg_part b) (pos_part b + neg_part a)

abbrev pub leb_ℤ : ℤ → ℤ → Bool
leb_ℤ a b = leb (pos_part a + neg_part b) (pos_part b + neg_part a)

unfoldable pub ◌==ℤ◌ : ℤ → ℤ → Bool
◌==ℤ◌ (pos a) (pos b) = a == b
◌==ℤ◌ (negsuc a) (negsuc b) = a == b
◌==ℤ◌ _ _ = false

pub ==ℤ_iff : (a b : ℤ) → ((a ==ℤ b) ≡ true) ↔ (a ≡ b)
unfolding ◌==ℤ◌
==ℤ_iff a b = ground arith

pub ==ℤ_refl : (a : ℤ) → (a ==ℤ a) ≡ true
==ℤ_refl a = (==ℤ_iff a a).1 refl

pub eq_of_parts : (a b : ℤ) → pos_part a + neg_part b ≡ pos_part b + neg_part a → a ≡ b
unfolding pos_part neg_part
eq_of_parts a b h = ground arith

pub inc_parts : (a : ℤ) → pos_part (inc a) + neg_part a ≡ pos_part a + neg_part (inc a) + 1
unfolding pos_part neg_part inc
inc_parts (pos n) = omega arith
inc_parts (negsuc zero) = omega arith
inc_parts (negsuc (suc n)) = omega arith

pub dec_parts : (a : ℤ) → pos_part (dec a) + neg_part a + 1 ≡ pos_part a + neg_part (dec a)
unfolding pos_part neg_part dec
dec_parts (pos zero) = omega arith
dec_parts (pos (suc n)) = omega arith
dec_parts (negsuc n) = omega arith

pub pos_parts : (n : ℕ) → (pos_part (pos n) ≡ n) × (neg_part (pos n) ≡ 0)
unfolding pos_part neg_part
pos_parts n = (refl, refl)

pub negsuc_parts : (n : ℕ) → (pos_part (negsuc n) ≡ 0) × (neg_part (negsuc n) ≡ suc n)
unfolding pos_part neg_part
negsuc_parts n = (refl, refl)

pub ruleset int_laws = (arith, inc_parts, dec_parts, pos_parts, negsuc_parts, eq_of_parts)

-- `std::min`
unfoldable pub min_ℤ : ℤ → ℤ → ℤ
min_ℤ a b = if ltb_ℤ b a then b else a

-- `static_cast<int32_t>( v.size() ) - 1`
abbrev pub last_index : ℕ → ℤ
last_index n = dec (pos n)

-- An integer and a count, `next + entries.size()`.
unfoldable pub plus : ℤ → ℕ → ℤ
plus (pos a) n = pos (a + n)
plus (negsuc a) n = if leb n a then negsuc (a - n) else pos (n - suc a)

pub plus_parts :
    (a : ℤ) (n : ℕ) → pos_part (plus a n) + neg_part a ≡ pos_part a + neg_part (plus a n) + n
unfolding pos_part neg_part plus
plus_parts (pos a) n = omega arith
plus_parts (negsuc a) n = ground arith

-- The place after an index that is not below -1, a natural number.
pub inc-place : (i : ℤ) → minus_one ≤ℤ i → (at : ℕ) × (inc i ≡ pos at)
unfolding inc pos_part neg_part
inc-place (pos n) h = (suc n, refl)
inc-place (negsuc zero) h = (0, refl)
inc-place (negsuc (suc n)) h = absurd (omega arith)

pub inc-place_parts : (i : ℤ) (at : ℕ) → inc i ≡ pos at → at + neg_part i ≡ pos_part i + 1
unfolding inc pos_part neg_part
inc-place_parts (pos n) at h = ground arith
inc-place_parts (negsuc zero) at h = ground arith
inc-place_parts (negsuc (suc n)) at h = cc
