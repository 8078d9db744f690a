-- ===== src/Prelude/Decimal.antt =====
-- `std::to_string` and `std::stoi` of an int: decimal digits, as character codes.
use oh_my_db.Prelude.Int.{ℤ, pos, negsuc}
use Prim.Native.Nat.{ℕ, zero, suc, ◌+◌, ◌-◌, ◌*◌, ◌/◌, ◌%◌, ◌^◌, ◌<◌}
use mathlib.Core.Path.{◌≡◌, refl, ap, sym, ◌∙◌}
use mathlib.Core.Bool.{Bool, true, false, ◌&&◌, ◌||◌}
use mathlib.Core.Logic.{inl, inr, ◌≢◌}
use mathlib.Core.List.{List, [], ◌∷◌, ◌++◌}
use mathlib.Core.Option.{Option, none, some}
use oh_my_db.Prelude.Fallible.{some-eq-some}
use native.Mathlib.Omega.{arith}
use oh_my_db.Prelude.Tests.{ltb, lt→ltb, leb, ◌==◌, if◌then◌else◌, Bool-cases}

-- Each round of fuel writes a digit; a number below 10 ^ fuel is written whole.
unfoldable pub digits : ℕ → ℕ → List ℕ
digits zero n = []
digits (suc fuel) n =
    let before = digits fuel (n / 10) in
    if ltb n 10 then (48 + n) ∷ [] else before ++ (48 + n % 10) ∷ []

-- Ten digits are enough for 32 bits.
unfoldable pub to_string : ℤ → List ℕ
unfolding digits
to_string (pos n) = digits 10 n
to_string (negsuc n) = 45 ∷ digits 10 (suc n)

unfoldable pub is_digit : ℕ → Bool
is_digit c = leb 48 c && leb c 57

-- `isspace`
unfoldable pub is_space : ℕ → Bool
is_space c = c == 32 || (leb 9 c && leb c 13)

unfoldable pub skip_spaces : List ℕ → List ℕ
skip_spaces [] = []
skip_spaces (c ∷ cs) = let rest = skip_spaces cs in if is_space c then rest else c ∷ cs

-- The digits at the front; what follows them is not read.
unfoldable pub read_digits : ℕ → List ℕ → ℕ
read_digits n [] = n
read_digits n (c ∷ cs) =
    let rest = read_digits (n * 10 + (c - 48)) cs in if is_digit c then rest else n

unfoldable pub negate : ℕ → ℤ
negate zero = pos 0
negate (suc n) = negsuc n

-- A number that int cannot hold throws: none.
unfoldable pub in_int : Bool → ℕ → Option ℤ
unfolding negate
in_int true n = if leb n (2 ^ 31) then some (negate n) else none
in_int false n = if ltb n (2 ^ 31) then some (pos n) else none

unfoldable pub read_number : Bool → List ℕ → Option ℤ
unfolding in_int read_digits
read_number is_negative [] = none
read_number is_negative (c ∷ cs) =
    if is_digit c then in_int is_negative (read_digits 0 (c ∷ cs)) else none

unfoldable pub read_sign : List ℕ → Option ℤ
unfolding read_number
read_sign [] = none
read_sign (c ∷ cs) =
    if c == 45
    then read_number true cs
    else if c == 43
    then read_number false cs
    else read_number false (c ∷ cs)

-- Text with no number in front throws: none.
unfoldable pub stoi : List ℕ → Option ℤ
unfolding read_sign skip_spaces
stoi cs = read_sign (skip_spaces cs)

-- The integers that an int holds.
abbrev pub IsInt : ℤ → Type 0
IsInt (pos n) = n < 2 ^ 31
IsInt (negsuc n) = n < 2 ^ 31

pub data AllDigits : List ℕ → Type 0 where
  empty : AllDigits []
  digit : {c : ℕ} {cs : List ℕ} → is_digit c ≡ true → AllDigits cs → AllDigits (c ∷ cs)

is_digit-low : (d : ℕ) → d < 10 → is_digit (48 + d) ≡ true
unfolding is_digit
is_digit-low d h = ground arith

AllDigits-snoc : {cs : List ℕ} (d : ℕ) → d < 10 → AllDigits cs → AllDigits (cs ++ (48 + d) ∷ [])
AllDigits-snoc d h empty = digit (is_digit-low d h) empty
AllDigits-snoc d h (digit e ds) = digit e (AllDigits-snoc d h ds)

pub digits-AllDigits : (fuel n : ℕ) → AllDigits (digits fuel n)
unfolding digits
digits-AllDigits zero n = empty
digits-AllDigits (suc fuel) n = elim (Bool-cases (ltb n 10)) [
  | inl h ↦ rw h (digit (is_digit-low n (ground arith)) empty)
  | inr h ↦ rw h (AllDigits-snoc (n % 10) (omega arith) (digits-AllDigits fuel (n / 10)))
]

read_digits-snoc :
    {cs : List ℕ} (n d : ℕ)
    → d < 10
    → AllDigits cs
    → read_digits n (cs ++ (48 + d) ∷ []) ≡ read_digits n cs * 10 + d
unfolding read_digits
read_digits-snoc n d h empty = rw (is_digit-low d h) (omega arith)
read_digits-snoc n d h (digit {c} {cs} e ds) = rw e (read_digits-snoc (n * 10 + (c - 48)) d h ds)

pub read_digits-digits : (fuel n : ℕ) → n < 10 ^ fuel → read_digits 0 (digits fuel n) ≡ n
unfolding digits read_digits
read_digits-digits zero n h = omega arith
read_digits-digits (suc fuel) n h = elim (Bool-cases (ltb n 10)) [
  | inl k ↦ rw k (rw (is_digit-low n (ground arith)) (omega arith))
  | inr k ↦
      let below : n / 10 < 10 ^ fuel = grind arith in
      rw k (
        rw
          (
            read_digits-snoc 0 (n % 10) (omega arith) (digits-AllDigits fuel (n / 10)),
            read_digits-digits fuel (n / 10) below,
          )
          (omega arith))
]

snoc≢nil : (cs : List ℕ) (c : ℕ) → cs ++ c ∷ [] ≢ []
snoc≢nil [] c h = ground (arith, h)
snoc≢nil (d ∷ cs) c h = ground (arith, h)

digits≢nil : (fuel n : ℕ) → digits (suc fuel) n ≢ []
unfolding digits
digits≢nil fuel n h = elim (Bool-cases (ltb n 10)) [
  | inl k ↦ snoc≢nil [] (48 + n) (rw k at h)
  | inr k ↦ snoc≢nil (digits fuel (n / 10)) (48 + n % 10) (rw k at h)
]

read_number-AllDigits :
    {cs : List ℕ} (is_negative : Bool)
    → AllDigits cs
    → cs ≢ []
    → read_number is_negative cs ≡ in_int is_negative (read_digits 0 cs)
unfolding read_number
read_number-AllDigits is_negative empty ne = absurd (ne refl)
read_number-AllDigits is_negative (digit e ds) ne = rw e refl

stoi-AllDigits : {cs : List ℕ} → AllDigits cs → cs ≢ [] → stoi cs ≡ in_int false (read_digits 0 cs)
unfolding stoi read_sign skip_spaces is_digit is_space read_number
stoi-AllDigits empty ne = absurd (ne refl)
stoi-AllDigits (digit e ds) ne = ground arith

stoi-minus :
    {cs : List ℕ} → AllDigits cs → cs ≢ [] → stoi (45 ∷ cs) ≡ in_int true (read_digits 0 cs)
unfolding stoi read_sign skip_spaces is_space
stoi-minus ds ne = read_number-AllDigits true ds ne

-- Every int comes back from its decimal digits, its sign included.
pub stoi-to_string : (z : ℤ) → IsInt z → stoi (to_string z) ≡ some z
unfolding to_string in_int
stoi-to_string (pos n) h =
    stoi-AllDigits (digits-AllDigits 10 n) (digits≢nil 9 n)
    ∙ rw (read_digits-digits 10 n (omega arith)) (rw (lt→ltb n (2 ^ 31) h) refl)
stoi-to_string (negsuc n) h =
    stoi-minus (digits-AllDigits 10 (suc n)) (digits≢nil 9 (suc n))
    ∙ rw (read_digits-digits 10 (suc n) (omega arith)) (ground (arith, h, negate))

pub to_string≢nil : (z : ℤ) → to_string z ≢ []
unfolding to_string
to_string≢nil (pos n) = digits≢nil 9 n
to_string≢nil (negsuc n) = λ h. ground (arith, h)

pub to_string-inj : (a b : ℤ) → IsInt a → IsInt b → to_string a ≡ to_string b → a ≡ b
to_string-inj a b ha hb h =
    some-eq-some (sym (stoi-to_string a ha) ∙ ap stoi h ∙ stoi-to_string b hb)

in_int-IsInt : (is_negative : Bool) (n : ℕ) (z : ℤ) → in_int is_negative n ≡ some z → IsInt z
unfolding in_int negate
in_int-IsInt true zero z h = rw (← some-eq-some h) (omega arith)
in_int-IsInt true (suc n) z h = elim (Bool-cases (leb (suc n) (2 ^ 31))) [
  | inl e ↦ rw (← some-eq-some (rw e at h)) (ground arith)
  | inr e ↦ absurd (ground (arith, rw e at h))
]
in_int-IsInt false n z h = elim (Bool-cases (ltb n (2 ^ 31))) [
  | inl e ↦ rw (← some-eq-some (rw e at h)) (ground arith)
  | inr e ↦ absurd (ground (arith, rw e at h))
]

read_number-IsInt :
    (is_negative : Bool) (cs : List ℕ) (z : ℤ) → read_number is_negative cs ≡ some z → IsInt z
unfolding read_number
read_number-IsInt is_negative [] z h = absurd (ground (arith, h))
read_number-IsInt is_negative (c ∷ cs) z h = elim (Bool-cases (is_digit c)) [
  | inl e ↦ in_int-IsInt is_negative _ z (rw e at h)
  | inr e ↦ absurd (ground (arith, rw e at h))
]

read_sign-IsInt : (cs : List ℕ) (z : ℤ) → read_sign cs ≡ some z → IsInt z
unfolding read_sign
read_sign-IsInt [] z h = absurd (ground (arith, h))
read_sign-IsInt (c ∷ cs) z h = elim (Bool-cases (c == 45)) [
  | inl e ↦ read_number-IsInt true cs z (rw e at h)
  | inr e ↦ elim (Bool-cases (c == 43)) [
    | inl k ↦ read_number-IsInt false cs z (rw (e, k) at h)
    | inr k ↦ read_number-IsInt false (c ∷ cs) z (rw (e, k) at h)
  ]
]

-- What `stoi` reads fits an int.
pub stoi-IsInt : (cs : List ℕ) (z : ℤ) → stoi cs ≡ some z → IsInt z
unfolding stoi
stoi-IsInt cs z h = read_sign-IsInt (skip_spaces cs) z h
