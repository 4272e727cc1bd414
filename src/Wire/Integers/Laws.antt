-- ===== src/Wire/Integers/Laws.antt =====
-- What integers look like on the wire.
use smoljudge.Prelude.{
  ℕ, zero, suc, ◌+◌, ◌-◌, ◌*◌, ◌/◌, ◌%◌, ◌^◌, ◌<◌, ◌≡◌, refl, sym, ap, subst, ◌∙◌, [], ◌∷◌, ◌++◌,
  reverse, reverse-reverse, length, length-append, length-reverse, take, take-append_length,
  drop-append_length, length-take_le, take-append-drop, All, All-take, All-reverse, arith, tests,
  ltb, lt→ltb, le→ltb, Bool-cases, inl, inr,
}
use smoljudge.Prelude.Int.{ℤ, pos, negsuc}
use smoljudge.Prelude.Outcome.{ok, throws, invalid_integral}
use smoljudge.Wire.Integers.{
  Endian, little, big, le_bytes, le_value, object_value, reverse_on_little, serialize_num,
  deserialize_num, to_pattern, of_pattern,
}
use smoljudge.Wire.Types.{Bytes, IsByte, IsUint, IsInt}
use mathlib.Core.List.{reverse-cons}
use mathlib.Core.Path.{ap₂}
use native.Mathlib.Nat.{pow-suc, mod-eq_of_lt, div-div-eq-div-mul}

pub length-le_bytes : (w n : ℕ) → length (le_bytes w n) ≡ w
unfolding le_bytes
length-le_bytes zero n = refl
length-le_bytes (suc w) n = ap suc (length-le_bytes w (n / 256))

le_bytes-IsByte : (w n : ℕ) → All IsByte (le_bytes w n)
unfolding le_bytes
le_bytes-IsByte zero n = tt
le_bytes-IsByte (suc w) n = (omega arith, le_bytes-IsByte w (n / 256))

shrink : (w n : ℕ) → n < 256 ^ suc w → n / 256 < 256 ^ w
shrink w n h = omega (arith, pow-suc 256 w)

le_value-le_bytes : (w n : ℕ) → n < 256 ^ w → le_value (le_bytes w n) ≡ n
unfolding le_value le_bytes
le_value-le_bytes zero n h = omega arith
le_value-le_bytes (suc w) n h = omega (arith, le_value-le_bytes w (n / 256) (shrink w n h))

div_step : (b n : ℕ) → b < 256 → (b + 256 * n) / 256 ≡ n
div_step b n h = omega arith

-- Bytes below 256 are the digits of the number that they stand for.
le_bytes-le_value : (bs : Bytes) → All IsByte bs → le_bytes (length bs) (le_value bs) ≡ bs
unfolding le_value le_bytes
le_bytes-le_value [] h = refl
le_bytes-le_value (b ∷ bs) (hb, hbs) =
    ap₂ ◌∷◌ (omega arith)
      (ap (le_bytes (length bs)) (div_step b (le_value bs) hb) ∙ le_bytes-le_value bs hbs)

le_value-lt : (bs : Bytes) → All IsByte bs → le_value bs < 256 ^ length bs
unfolding le_value
le_value-lt [] h = omega arith
le_value-lt (b ∷ bs) (hb, hbs) = omega (arith, le_value-lt bs hbs, pow-suc 256 (length bs))

-- The number's bytes as they are sent, its digits to the base 256: the highest first, whatever the
-- machine.
pub be_bytes : ℕ → ℕ → Bytes
be_bytes zero n = []
be_bytes (suc w) n = n / 256 ^ w % 256 ∷ be_bytes w n

next_digit : (w n : ℕ) → n / 256 ^ suc w ≡ n / 256 / 256 ^ w
next_digit w n =
    ap (λ k. n / k) (omega (arith, pow-suc 256 w)) ∙ sym (div-div-eq-div-mul n 256 (256 ^ w))

-- The last digit is the remainder by 256.
be_bytes-last : (w n : ℕ) → be_bytes (suc w) n ≡ be_bytes w (n / 256) ++ n % 256 ∷ []
unfolding be_bytes
be_bytes-last zero n = ap (λ k. k % 256 ∷ []) (omega arith)
be_bytes-last (suc w) n = ap₂ ◌∷◌ (ap (λ k. k % 256) (next_digit w n)) (be_bytes-last w n)

be_bytes-le_bytes : (w n : ℕ) → be_bytes w n ≡ reverse (le_bytes w n)
unfolding be_bytes le_bytes
be_bytes-le_bytes zero n = refl
be_bytes-le_bytes (suc w) n =
    be_bytes-last w n
    ∙ ap (λ bs. bs ++ n % 256 ∷ []) (be_bytes-le_bytes w (n / 256))
    ∙ sym (reverse-cons (n % 256) (le_bytes w (n / 256)))

pub be_bytes-IsByte : (w n : ℕ) → All IsByte (be_bytes w n)
be_bytes-IsByte w n =
    rw (be_bytes-le_bytes w n) (All-reverse IsByte (le_bytes w n) (le_bytes-IsByte w n))

-- On a machine of either byte order a number is written after the output so far, as its digits to
-- the base 256 with the highest first.
pub serialize_num-be :
    (e : Endian) (w n : ℕ) (to : Bytes) → serialize_num e w n to ≡ to ++ be_bytes w n
unfolding serialize_num
serialize_num-be little w n to = rw (be_bytes-le_bytes w n) refl
serialize_num-be big w n to = rw (be_bytes-le_bytes w n) refl

pub length-be_bytes : (w n : ℕ) → length (be_bytes w n) ≡ w
length-be_bytes w n =
    ap length (be_bytes-le_bytes w n) ∙ length-reverse (le_bytes w n) ∙ length-le_bytes w n

read_be :
    (e : Endian) (w n : ℕ) → IsUint w n → object_value e (reverse_on_little e (be_bytes w n)) ≡ n
unfolding object_value reverse_on_little
read_be little w n h =
    rw (be_bytes-le_bytes w n, reverse-reverse (le_bytes w n)) (le_value-le_bytes w n h)
read_be big w n h =
    rw (be_bytes-le_bytes w n, reverse-reverse (le_bytes w n)) (le_value-le_bytes w n h)

-- A number that fits its width is read back from its bytes, highest byte first, on a machine of
-- either byte order, and what follows is left.
pub deserialize_num-be :
    (e : Endian) (w n : ℕ) (rest : Bytes)
    → IsUint w n
    → deserialize_num e w (be_bytes w n ++ rest) ≡ ok (n, rest)
unfolding deserialize_num
deserialize_num-be e w n rest h = rw (
  le→ltb (length (be_bytes w n ++ rest)) w
      (omega (arith, length-append (be_bytes w n) rest, length-be_bytes w n)),
  take-append_length w (be_bytes w n) rest (length-be_bytes w n),
  drop-append_length w (be_bytes w n) rest (length-be_bytes w n),
  read_be e w n h,
)

module _ (w : ℕ) (ys : Bytes) (h : All IsByte ys) (len : length ys ≡ w) where
  be_value : be_bytes w (le_value (reverse ys)) ≡ ys
  be_value =
      let same : length (reverse ys) ≡ w = length-reverse ys ∙ len in
      be_bytes-le_bytes w (le_value (reverse ys))
      ∙ ap (λ k. reverse (le_bytes k (le_value (reverse ys)))) (sym same)
      ∙ ap reverse (le_bytes-le_value (reverse ys) (All-reverse IsByte ys h))
      ∙ reverse-reverse ys

  be_value-lt : le_value (reverse ys) < 256 ^ w
  be_value-lt =
      let same : length (reverse ys) ≡ w = length-reverse ys ∙ len in
      subst (λ k. le_value (reverse ys) < 256 ^ k) same
        (le_value-lt (reverse ys) (All-reverse IsByte ys h))

  read_value :
      (e : Endian)
      → (be_bytes w (object_value e (reverse_on_little e ys)) ≡ ys)
        × (object_value e (reverse_on_little e ys) < 256 ^ w)
  unfolding object_value reverse_on_little
  read_value little = (be_value, be_value-lt)
  read_value big = (be_value, be_value-lt)

-- Whatever a read returns is in range, and its bytes are those of the number.
pub be_bytes-deserialize_num :
    (e : Endian) (w : ℕ) (bs : Bytes) {n : ℕ} {rest : Bytes}
    → All IsByte bs
    → deserialize_num e w bs ≡ ok (n, rest)
    → (bs ≡ be_bytes w n ++ rest) × IsUint w n
unfolding deserialize_num
be_bytes-deserialize_num e w bs h r = elim (Bool-cases (ltb (length bs) w)) [
  | inl short ↦ cc (rw short at r)
  | inr enough ↦
      let got = rw enough at r in
      let len = length-take_le w bs (omega (tests, enough)) in
      let (bytes, range) = read_value w (take w bs) (All-take IsByte w bs h) len e in
      ground (arith, got, bytes, range, take-append-drop w bs)
]

pub of_pattern-to_pattern : (w : ℕ) (z : ℤ) → IsInt w z → of_pattern w (to_pattern w z) ≡ z
unfolding of_pattern to_pattern
of_pattern-to_pattern w (pos n) h = ground (arith, mod-eq_of_lt {n = n} {m = 256 ^ w})
of_pattern-to_pattern w (negsuc n) h = ground (arith, mod-eq_of_lt {n = n} {m = 256 ^ w})

pub to_pattern-of_pattern :
    (w m : ℕ) → IsUint w m → (to_pattern w (of_pattern w m) ≡ m) × IsInt w (of_pattern w m)
unfolding of_pattern to_pattern
to_pattern-of_pattern w m h =
    ground
      (arith, mod-eq_of_lt {n = m} {m = 256 ^ w}, mod-eq_of_lt {n = 256 ^ w - 1 - m} {m = 256 ^ w})

pub to_pattern-IsUint : (w : ℕ) (z : ℤ) → IsInt w z → IsUint w (to_pattern w z)
unfolding to_pattern
to_pattern-IsUint w (pos n) h = ground (arith, mod-eq_of_lt {n = n} {m = 256 ^ w})
to_pattern-IsUint w (negsuc n) h = ground (arith, mod-eq_of_lt {n = n} {m = 256 ^ w})

pub deserialize_num_short :
    (e : Endian) (w : ℕ) (bs : Bytes)
    → length bs < w
    → deserialize_num e w bs ≡ throws invalid_integral
unfolding deserialize_num
deserialize_num_short e w bs h = rw (lt→ltb (length bs) w h)
