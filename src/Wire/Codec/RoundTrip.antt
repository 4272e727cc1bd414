-- ===== src/Wire/Codec/RoundTrip.antt =====
-- Reading back what was written.
use smoljudge.Prelude.{
  ℕ, zero, suc, ◌^◌, ◌<◌, ◌≡◌, refl, sym, Bool, true, false, List, [], ◌∷◌, ◌++◌, append_assoc,
  append-nil, length, length-append, All, Option, none, some, inl, inr, arith, leb, ◌==◌,
  if◌then◌else◌, le→ltb, take-append_length, drop-append_length,
}
use smoljudge.Prelude.Outcome.{
  Outcome, ok, throws, bad_variant_access, invalid_variant, invalid_integral,
}
use smoljudge.Wire.Types.{
  Ty, Tys, uint, int, bool, byte, string, vector, variant, tuple, pair, array, optional, nil, cons,
  Bytes, Array, El, Alternative, Fields, count, index, IsValue, IsAlternative, IsFields, HoldsFirst,
  AlternativeIsFirst, FieldsHoldFirst, AllIn, AllOf,
}
use smoljudge.Wire.Integers.{to_pattern}
use smoljudge.Wire.Integers.Laws.{
  be_bytes, deserialize_num-be, deserialize_num_short, of_pattern-to_pattern, to_pattern-IsUint,
}
use smoljudge.Wire.Codec.{
  native, serialize, bool_of, deserialize_bool, deserialize_string, deserialize_elems,
  deserialize_array, deserialize_optional, deserialize_to, deserialize_held, deserialize_fields,
  default_index, finish, deserialize, deserialize_byte,
}
use smoljudge.Wire.Codec.Format.{
  encode_bool, encode_elems, encode_array, encode_optional, encode, encode_held, encode_fields,
  serialize-encode,
}

deserialize_bool-encode :
    (b : Bool) (rest : Bytes) → deserialize_bool (encode_bool b ++ rest) ≡ ok (b, rest)
unfolding deserialize_bool encode_bool bool_of
deserialize_bool-encode true rest = rw (deserialize_num-be native 1 1 rest (omega arith))
deserialize_bool-encode false rest = rw (deserialize_num-be native 1 0 rest (omega arith))

deserialize_string-encode :
    (s rest : Bytes)
    → length s < 256 ^ 8
    → deserialize_string (be_bytes 8 (length s) ++ (s ++ rest)) ≡ ok (s, rest)
unfolding deserialize_string
deserialize_string-encode s rest h = rw (
  deserialize_num-be native 8 (length s) (s ++ rest) h,
  le→ltb (length (s ++ rest)) (length s) (omega (arith, length-append s rest)),
  take-append_length (length s) s rest refl,
  drop-append_length (length s) s rest refl,
)

-- `f` reads back what `g` writes, for values with both properties.
abbrev Reads :
    {A : Type 0}
    → (Bytes → Outcome (A × Bytes))
    → (A → Bytes)
    → (A → Type 0)
    → (A → Type 0)
    → Type 0
Reads {A} f g P Q = (x : A) (rest : Bytes) → P x → Q x → f (g x ++ rest) ≡ ok (x, rest)

module _ {A : Type 0} (f : Bytes → Outcome (A × Bytes)) (g : A → Bytes) (P Q : A → Type 0)
    (reads : Reads f g P Q) where
  elems_lem :
      (xs : List A) (rest : Bytes)
      → All P xs
      → All Q xs
      → deserialize_elems f (length xs) (encode_elems g xs ++ rest) ≡ ok (xs, rest)
  unfolding deserialize_elems encode_elems
  elems_lem [] rest p q = refl
  elems_lem (x ∷ xs) rest p q =
      rw (append_assoc, reads x (encode_elems g xs ++ rest) p.0 q.0, elems_lem xs rest p.1 q.1)

  array_lem :
      (n : ℕ) (xs : Array A n) (rest : Bytes)
      → AllIn P n xs
      → AllIn Q n xs
      → deserialize_array f n (encode_array g n xs ++ rest) ≡ ok (xs, rest)
  unfolding deserialize_array encode_array
  array_lem zero xs rest p q = refl
  array_lem (suc n) (x, xs) rest p q =
      rw (append_assoc, reads x (encode_array g n xs ++ rest) p.0 q.0, array_lem n xs rest p.1 q.1)

  optional_lem :
      (o : Option A) (rest : Bytes)
      → AllOf P o
      → AllOf Q o
      → deserialize_optional f (encode_optional g o ++ rest) ≡ ok (o, rest)
  unfolding deserialize_optional encode_optional
  optional_lem none rest p q = rw (deserialize_bool-encode false rest)
  optional_lem (some x) rest p q =
      rw (append_assoc, deserialize_bool-encode true (g x ++ rest), reads x rest p q)

variant_lem :
    (ts : Tys) (a : Alternative ts) (rest : Bytes) (read : Outcome (Alternative ts × Bytes))
    → (read ≡ ok (a, rest)) × (index ts a ≡ 0) × (0 < count ts)
    → (if leb (count ts) (index ts a)
        then throws invalid_variant
        else (if index ts a == default_index then read else throws bad_variant_access))
      ≡ ok (a, rest)
variant_lem ts a rest read h = ground arith

mutual
  unfolding deserialize_to encode index deserialize_byte count

  to_lem : (t : Ty) → Reads (deserialize_to t) (encode t) (IsValue t) (HoldsFirst t)
  to_lem (uint w) n rest p q = deserialize_num-be native w n rest p
  to_lem (int w) z rest p q = rw (
    deserialize_num-be native w (to_pattern w z) rest (to_pattern-IsUint w z p),
    of_pattern-to_pattern w z p,
  )
  to_lem bool b rest p q = deserialize_bool-encode b rest
  to_lem byte b rest p q = refl
  to_lem string s rest p q = rw append_assoc (deserialize_string-encode s rest p.1)
  to_lem (vector t) xs rest p q =
      rw
        (
          append_assoc,
          deserialize_num-be native 8 (length xs) (encode_elems (encode t) xs ++ rest) p.1,
        )
        (elems_lem (deserialize_to t) (encode t) (IsValue t) (HoldsFirst t) (to_lem t) xs rest p.0
          q)
  to_lem (variant ts) a rest p q =
      rw (append_assoc, deserialize_num-be native 1 (index ts a) (encode_held ts a ++ rest) p.1)
        (variant_lem ts a rest (deserialize_held ts (index ts a) (encode_held ts a ++ rest))
          (held_lem ts a rest p.0 q))
  to_lem (tuple ts) vs rest p q = fields_lem ts vs rest p q
  to_lem (pair a b) v rest p q =
      rw (append_assoc, to_lem a v.0 (encode b v.1 ++ rest) p.0 q.0, to_lem b v.1 rest p.1 q.1)
  to_lem (array t n) xs rest p q =
      array_lem (deserialize_to t) (encode t) (IsValue t) (HoldsFirst t) (to_lem t) n xs rest p q
  to_lem (optional t) o rest p q =
      optional_lem (deserialize_to t) (encode t) (IsValue t) (HoldsFirst t) (to_lem t) o rest p q

  held_lem :
      (ts : Tys) (a : Alternative ts) (rest : Bytes)
      → IsAlternative ts a
      → AlternativeIsFirst ts a
      → (deserialize_held ts (index ts a) (encode_held ts a ++ rest) ≡ ok (a, rest))
        × (index ts a ≡ 0)
        × (0 < count ts)
  held_lem nil a rest p q = elim a [ ]
  held_lem (cons t ts) (inl v) rest p q = (rw (to_lem t v rest p q), refl, omega arith)
  held_lem (cons t ts) (inr a) rest p q = elim q [ ]

  fields_lem :
      (ts : Tys) (vs : Fields ts) (rest : Bytes)
      → IsFields ts vs
      → FieldsHoldFirst ts vs
      → deserialize_fields ts (encode_fields ts vs ++ rest) ≡ ok (vs, rest)
  fields_lem nil vs rest p q = refl
  fields_lem (cons t ts) (v, vs) rest p q = rw (
    append_assoc,
    to_lem t v (encode_fields ts vs ++ rest) p.0 q.0,
    fields_lem ts vs rest p.1 q.1,
  )

-- `deserialize_to` takes an encoded value off the front of any input.
pub deserialize_to-encode :
    (t : Ty) (v : El t) (rest : Bytes)
    → IsValue t v
    → HoldsFirst t v
    → deserialize_to t (encode t v ++ rest) ≡ ok (v, rest)
deserialize_to-encode t v rest p q = to_lem t v rest p q

pub deserialize_to-encode_all :
    (t : Ty) (v : El t) → IsValue t v → HoldsFirst t v → deserialize_to t (encode t v) ≡ ok (v, [])
deserialize_to-encode_all t v p q = rw append-nil at (deserialize_to-encode t v [] p q)

-- What `serialize` wrote is read back by `deserialize`, for every type and every value of it that
-- is in range and in which each variant holds its first alternative.
pub deserialize-serialize :
    (t : Ty) (v : El t) → IsValue t v → HoldsFirst t v → deserialize t (serialize t v) ≡ ok v
unfolding deserialize finish
deserialize-serialize t v p q =
    rw (serialize-encode t v, sym (append-nil (encode t v)), deserialize_to-encode t v [] p q)

pub deserialize_to_short :
    (w : ℕ) (bs : Bytes) → length bs < w → deserialize_to (uint w) bs ≡ throws invalid_integral
unfolding deserialize_to
deserialize_to_short w bs h = deserialize_num_short native w bs h

pub deserialize-encode :
    (t : Ty) (v : El t) → IsValue t v → HoldsFirst t v → deserialize t (encode t v) ≡ ok v
deserialize-encode t v p q = rw serialize-encode at (deserialize-serialize t v p q)
