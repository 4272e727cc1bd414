-- ===== src/Wire/Codec/Variants.antt =====
-- Variants that hold another alternative than the first. `T to;` makes a variant that holds its
-- first alternative, and `std::get<I>(to)` of another throws, so these are written but never read.
use smoljudge.Prelude.{ℕ, ◌<◌, ◌≡◌, ◌≢◌, leb, ◌==◌, if◌then◌else◌, inl, inr, arith}
use smoljudge.Prelude.Outcome.{Outcome, throws, bad_variant_access, invalid_variant}
use smoljudge.Wire.Types.{Tys, variant, nil, cons, Alternative, count, index}
use smoljudge.Wire.Integers.Laws.{deserialize_num-be}
use smoljudge.Wire.Codec.{
  native, serialize, deserialize_to, deserialize_held, deserialize, default_index,
}
use smoljudge.Wire.Codec.Format.{encode, encode_held, serialize-encode}

index-lt-count : (ts : Tys) (a : Alternative ts) → index ts a < count ts
unfolding index count
index-lt-count nil a = elim a [ ]
index-lt-count (cons t ts) (inl v) = omega arith
index-lt-count (cons t ts) (inr a) = omega (arith, index-lt-count ts a)

other_alternative :
    {A : Type 0} (n i : ℕ) (read : Outcome A)
    → i < n
    → i ≢ 0
    → (if leb n i
        then throws invalid_variant
        else (if i == default_index then read else throws bad_variant_access))
      ≡ throws bad_variant_access
other_alternative n i read h k = ground arith

-- A variant that holds any alternative but the first is written, and, where one byte holds its
-- index, reading back what was written throws `std::bad_variant_access`.
pub deserialize-serialize_other :
    (ts : Tys) (a : Alternative ts)
    → index ts a < 256
    → index ts a ≢ 0
    → deserialize (variant ts) (serialize (variant ts) a) ≡ throws bad_variant_access
unfolding deserialize deserialize_to encode
deserialize-serialize_other ts a small other = rw (
  serialize-encode (variant ts) a,
  deserialize_num-be native 1 (index ts a) (encode_held ts a) small,
  other_alternative (count ts) (index ts a) (deserialize_held ts (index ts a) (encode_held ts a))
      (index-lt-count ts a) other,
)
