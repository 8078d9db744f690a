-- ===== src/Prelude/Texts.antt =====
-- Text as a list of character codes: equality, and the parts of C strings.
use Prim.Native.Nat.{ℕ, zero, suc, ◌<◌, ◌≤◌}
use mathlib.Core.Path.{◌≡◌, refl, ap, sym, subst}
use mathlib.Core.Logic.{◌↔◌, inl, inr}
use mathlib.Core.Bool.{Bool, true, false, ◌&&◌}
use mathlib.Core.List.{List, [], ◌∷◌, ◌++◌}
use mathlib.Core.Option.{Option, none, some}
use Prim.Native.Char.{code}
use Prim.Native.String.{String}
use oh_my_db.Prelude.Fallible.{some-eq-some}
use native.Mathlib.Omega.{arith}
use oh_my_db.Prelude.Int.{ℤ, pos, negsuc}
use oh_my_db.Prelude.Decimal.{AllDigits, empty, digit, is_digit, digits-AllDigits, to_string}
use oh_my_db.Prelude.Lists.{length, take}
use oh_my_db.Prelude.Tests.{ltb, lt→ltb, ltb→lt, Bool-cases, ◌==◌, if◌then◌else◌}

-- The codes of a literal.
abbrev pub codes : String → List ℕ
codes String.[] = []
codes (String.◌∷◌ c s) = code c ∷ codes s

unfoldable pub text_eq : List ℕ → List ℕ → Bool
text_eq [] [] = true
text_eq (c ∷ cs) (d ∷ ds) = c == d && text_eq cs ds
text_eq _ _ = false

pub text_eq_iff : (s t : List ℕ) → (text_eq s t ≡ true) ↔ (s ≡ t)
unfolding text_eq
text_eq_iff [] [] = ground arith
text_eq_iff [] (d ∷ ds) = ground arith
text_eq_iff (c ∷ cs) [] = ground arith
text_eq_iff (c ∷ cs) (d ∷ ds) = ground (arith, text_eq_iff cs ds)

-- `std::string::c_str`, read as a C string: up to the first zero
unfoldable pub c_str : List ℕ → List ℕ
c_str [] = []
c_str (c ∷ cs) = let rest = c_str cs in if c == 0 then [] else c ∷ rest

-- `strcpy` into an array of `size` bytes. Text that does not fit with its zero is undefined
-- behaviour: none.
unfoldable pub strcpy : ℕ → List ℕ → Option (List ℕ)
unfolding c_str
strcpy size s = if ltb (length (c_str s)) size then some (c_str s) else none

-- A C string that an array of `size` bytes holds.
pub record FitsArray (size : ℕ) (t : List ℕ) : Type 0 where
  pub no_zero : c_str t ≡ t
  pub short : length t < size

pub strcpy-FitsArray : (size : ℕ) (t : List ℕ) → FitsArray size t → strcpy size t ≡ some t
unfolding strcpy
strcpy-FitsArray size t f = rw (f.no_zero, lt→ltb (length t) size f.short) refl

-- A text without the character `d`.
abbrev pub AllBut : ℕ → List ℕ → Type 0
AllBut d [] = Unit
AllBut d (c ∷ cs) = ((c == d) ≡ false) × AllBut d cs

pub AllBut-append : (d : ℕ) (s t : List ℕ) → AllBut d s → AllBut d t → AllBut d (s ++ t)
AllBut-append d [] t hs ht = ht
AllBut-append d (c ∷ s) t hs ht = (hs.0, AllBut-append d s t hs.1 ht)

AllDigits-AllBut : {cs : List ℕ} (d : ℕ) → d < 48 → AllDigits cs → AllBut d cs
unfolding is_digit
AllDigits-AllBut d h empty = tt
AllDigits-AllBut d h (digit e ds) = (ground arith, AllDigits-AllBut d h ds)

-- A number is printed without commas, spaces and newlines.
pub to_string-AllBut : (d : ℕ) (z : ℤ) → d < 45 → AllBut d (to_string z)
unfolding to_string
to_string-AllBut d (pos n) h = AllDigits-AllBut d (omega arith) (digits-AllDigits 10 n)
to_string-AllBut d (negsuc n) h =
    (ground arith, AllDigits-AllBut d (omega arith) (digits-AllDigits 10 (suc n)))

pub AllBut-c_str : (d : ℕ) (s : List ℕ) → AllBut d s → AllBut d (c_str s)
unfolding c_str
AllBut-c_str d [] h = tt
AllBut-c_str d (c ∷ s) h = elim (Bool-cases (c == 0)) [
  | inl e ↦ rw e tt
  | inr e ↦ rw e (h.0, AllBut-c_str d s h.1)
]

pub AllBut-take : (d n : ℕ) (s : List ℕ) → AllBut d s → AllBut d (take n s)
AllBut-take d zero s h = tt
AllBut-take d (suc n) [] h = tt
AllBut-take d (suc n) (c ∷ s) h = (h.0, AllBut-take d n s h.1)

c_str_idem : (s : List ℕ) → c_str (c_str s) ≡ c_str s
unfolding c_str
c_str_idem [] = refl
c_str_idem (c ∷ s) = elim (Bool-cases (c == 0)) [
  | inl e ↦ rw e refl
  | inr e ↦ rw (e, c_str) (rw e (ap (◌∷◌ c) (c_str_idem s)))
]

pub length-c_str : (s : List ℕ) → length (c_str s) ≤ length s
unfolding c_str
length-c_str [] = omega arith
length-c_str (c ∷ s) = ground (arith, length-c_str s)

-- What `strcpy` leaves in an array.
pub strcpy-copied :
    (size : ℕ) (s t : List ℕ) → strcpy size s ≡ some t → FitsArray size t × (t ≡ c_str s)
unfolding strcpy
strcpy-copied size s t h = elim (Bool-cases (ltb (length (c_str s)) size)) [
  | inl e ↦
      let same : c_str s ≡ t = some-eq-some (rw e at h) in
      (
        subst (FitsArray size) same
            (record { no_zero = c_str_idem s; short = ltb→lt (length (c_str s)) size e }),
        sym same,
      )
  | inr e ↦ absurd (ground (arith, rw e at h))
]
