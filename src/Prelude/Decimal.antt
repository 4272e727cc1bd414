-- ===== src/Prelude/Decimal.antt =====
-- `std::to_string` of an unsigned number, and reading such a text.
use Prim.Native.Nat.{ℕ, zero, suc, ◌+◌, ◌-◌, ◌*◌, ◌/◌, ◌%◌, ◌<◌}
use mathlib.Core.Path.{◌≡◌, refl, ap, ◌∙◌}
use mathlib.Core.Bool.{Bool, true, ◌&&◌}
use mathlib.Core.Logic.{inl, inr}
use mathlib.Core.List.{[], ◌∷◌, ◌++◌}
use native.Mathlib.Omega.{arith}
use smoljudge.Prelude.Tests.{ltb, leb, if◌then◌else◌, Bool-cases, tests}
use smoljudge.Prelude.Lists.{All}
use smoljudge.Prelude.Text.{Text}

-- The digits of `n` in front of `out`; a number has fewer digits than its successor has units.
unfoldable pub digits : ℕ → ℕ → Text → Text
digits zero n out = out
digits (suc fuel) n out =
    let rest = digits fuel (n / 10) ((b'0' + n % 10) ∷ out) in
    if ltb n 10 then (b'0' + n) ∷ out else rest

unfoldable pub to_string : ℕ → Text
unfolding digits
to_string n = digits (suc n) n []

unfoldable pub is_digit : ℕ → Bool
is_digit c = leb b'0' c && leb c b'9'

-- Digits up to the first character that is none, behind the number `n`.
unfoldable pub read_digits : ℕ → Text → ℕ × Text
unfolding is_digit
read_digits n [] = (n, [])
read_digits n (c ∷ s) =
    let rest = read_digits (n * 10 + (c - b'0')) s in if is_digit c then rest else (n, c ∷ s)

read_digits-digits :
    (fuel n : ℕ) (out : Text) → n < fuel → read_digits 0 (digits fuel n out) ≡ read_digits n out
unfolding read_digits digits is_digit
read_digits-digits zero n out h = absurd (omega arith)
read_digits-digits (suc fuel) n out h =
    ground (arith, read_digits-digits fuel (n / 10) ((b'0' + n % 10) ∷ out))

-- All of them are digits, so a text of them can be followed by anything.
digits-append :
    (fuel n : ℕ) (out rest : Text) → digits fuel n out ++ rest ≡ digits fuel n (out ++ rest)
unfolding digits
digits-append zero n out rest = refl
digits-append (suc fuel) n out rest =
    ground (arith, digits-append fuel (n / 10) ((b'0' + n % 10) ∷ out) rest)

-- A printed number is read back, up to what follows it.
pub read_digits-to_string :
    (n : ℕ) (rest : Text) → read_digits 0 (to_string n ++ rest) ≡ read_digits n rest
unfolding to_string
read_digits-to_string n rest =
    ap (read_digits 0) (digits-append (suc n) n [] rest)
    ∙ read_digits-digits (suc n) n rest (omega arith)

-- A printed number is one digit or more, and nothing else.
digits_first :
    (fuel n : ℕ) (out : Text)
    → n < fuel
    → (c : ℕ) × (s : Text) × (digits fuel n out ≡ c ∷ s) × (is_digit c ≡ true)
unfolding digits is_digit
digits_first zero n out h = absurd (omega arith)
digits_first (suc fuel) n out h = elim (Bool-cases (ltb n 10)) [
  | inl low ↦ (b'0' + n, out, rw low, ground (arith, low))
  | inr high ↦
      let (c, s, e, d) = digits_first fuel (n / 10) ((b'0' + n % 10) ∷ out) (omega (tests, high)) in
      (c, s, rw high e, d)
]

digits-All :
    (fuel n : ℕ) (out : Text)
    → All (λ c. is_digit c ≡ true) out
    → All (λ c. is_digit c ≡ true) (digits fuel n out)
unfolding digits is_digit
digits-All zero n out h = h
digits-All (suc fuel) n out h = elim (Bool-cases (ltb n 10)) [
  | inl low ↦ rw low (ground (arith, low), h)
  | inr high ↦ rw high (digits-All fuel (n / 10) ((b'0' + n % 10) ∷ out) (ground arith, h))
]

pub to_string_first : (n : ℕ) → (c : ℕ) × (s : Text) × (to_string n ≡ c ∷ s) × (is_digit c ≡ true)
unfolding to_string
to_string_first n = digits_first (suc n) n [] (omega arith)

pub to_string-All : (n : ℕ) → All (λ c. is_digit c ≡ true) (to_string n)
unfolding to_string
to_string-All n = digits-All (suc n) n [] tt
