-- ===== src/Wire/Codec/Tests.antt =====
-- Runs on concrete values, and the theorems at concrete inputs.
use smoljudge.Prelude.{◌≡◌, refl, true, [], ◌∷◌, ◌++◌, some, none, inl, inr, arith}
use smoljudge.Prelude.Int.{negsuc}
use smoljudge.Prelude.Outcome.{ok, throws, undefined, bad_variant_access, trailing_junk}
use smoljudge.Wire.Types.{
  Ty, int, bool, byte, string, vector, variant, tuple, pair, optional, nil, cons, El, Bytes,
  IsValue, HoldsFirst,
}
use smoljudge.Wire.Types.{index, count}
use smoljudge.Wire.Integers.{serialize_num, deserialize_num, to_pattern, of_pattern}
use smoljudge.Wire.Codec.{
  serialize_to, serialize_elems, serialize_optional, serialize, deserialize_bool, deserialize_byte,
  deserialize_string, deserialize_elems, deserialize_optional, deserialize,
}
use smoljudge.Wire.Codec.Format.{encode, serialize_to-encode}
use smoljudge.Wire.Codec.RoundTrip.{deserialize-serialize}
use smoljudge.Wire.Codec.Exact.{serialize-deserialize}
use smoljudge.Wire.Codec.Variants.{deserialize-serialize_other}

abbrev sample_type : Ty
sample_type = tuple (
    cons (int 4) (
      cons (vector (pair byte (optional string))) (cons (variant (cons bool (cons byte nil))) nil)))

abbrev sample : El sample_type
sample = (negsuc 1, ((7, some (b'h' ∷ b'i' ∷ [])) ∷ (8, none) ∷ [], (inl true, tt)))

abbrev sample_bytes : Bytes
sample_bytes =
    255 ∷ 255 ∷ 255 ∷ 254 ∷ 0 ∷ 0 ∷ 0 ∷ 0 ∷ 0 ∷ 0 ∷ 0 ∷ 2 ∷ 7 ∷ 1 ∷ 0 ∷ 0 ∷ 0 ∷ 0 ∷ 0 ∷ 0 ∷ 0 ∷ 2
    ∷ b'h' ∷ b'i' ∷ 8 ∷ 0 ∷ 0 ∷ 1 ∷ []

sample_written : serialize sample_type sample ≡ sample_bytes
unfolding serialize serialize_num serialize_elems serialize_optional to_pattern index
sample_written = refl

sample_read : deserialize sample_type sample_bytes ≡ ok sample
unfolding deserialize deserialize_num deserialize_elems deserialize_optional deserialize_string
    deserialize_byte of_pattern count
sample_read = refl

bool_out_of_range : deserialize bool (2 ∷ []) ≡ undefined
unfolding deserialize deserialize_num deserialize_bool
bool_out_of_range = refl

junk_refused : deserialize byte (2 ∷ 3 ∷ []) ≡ throws trailing_junk
unfolding deserialize deserialize_byte
junk_refused = refl

serialize_to-encode_example :
    serialize_to sample_type sample (9 ∷ []) ≡ 9 ∷ [] ++ encode sample_type sample
serialize_to-encode_example = serialize_to-encode sample_type sample (9 ∷ [])

deserialize-serialize_example : deserialize sample_type (serialize sample_type sample) ≡ ok sample
unfolding index
deserialize-serialize_example = deserialize-serialize sample_type sample (omega arith) (omega arith)

serialize-deserialize_example :
    (serialize sample_type sample ≡ sample_bytes)
    × IsValue sample_type sample
    × HoldsFirst sample_type sample
serialize-deserialize_example =
    serialize-deserialize sample_type sample_bytes sample (omega arith) sample_read

deserialize-serialize_other_example :
    deserialize
      (variant (cons bool (cons byte nil)))
      (serialize (variant (cons bool (cons byte nil))) (inr (inl 5)))
    ≡ throws bad_variant_access
unfolding index
deserialize-serialize_other_example =
    deserialize-serialize_other (cons bool (cons byte nil)) (inr (inl 5)) (omega arith)
      (omega arith)
