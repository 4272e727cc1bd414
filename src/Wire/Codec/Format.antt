-- ===== src/Wire/Codec/Format.antt =====
-- The wire format, written down without the output vector, and that `serialize_to` appends it.
use smoljudge.Prelude.{
  ℕ, zero, suc, ◌≡◌, refl, sym, true, false, List, [], ◌∷◌, ◌++◌, append_assoc, append-nil, length,
  Option, none, some, Bool, inl, inr,
}
use smoljudge.Wire.Types.{
  Ty, Tys, uint, int, bool, byte, string, vector, variant, tuple, pair, array, optional, nil, cons,
  Bytes, Array, El, Alternative, Fields, index,
}
use smoljudge.Wire.Integers.{to_pattern, serialize_num}
use smoljudge.Wire.Integers.Laws.{be_bytes, serialize_num-be}
use smoljudge.Wire.Codec.{
  native, serialize_bool, serialize_elems, serialize_array, serialize_optional, serialize_to,
  serialize_held, serialize_fields, serialize,
}

unfoldable pub encode_bool : Bool → Bytes
encode_bool true = be_bytes 1 1
encode_bool false = be_bytes 1 0

module _ {A : Type 0} (g : A → Bytes) where
  unfoldable pub encode_elems : List A → Bytes
  encode_elems [] = []
  encode_elems (x ∷ xs) = g x ++ encode_elems xs

  unfoldable pub encode_array : (n : ℕ) → Array A n → Bytes
  encode_array zero xs = []
  encode_array (suc n) (x, xs) = g x ++ encode_array n xs

  unfoldable pub encode_optional : Option A → Bytes
  encode_optional none = encode_bool false
  encode_optional (some x) = encode_bool true ++ g x

unfoldable mutual
  -- Integers go highest byte first. Strings and vectors follow their length in eight bytes, an
  -- alternative its index in one byte, and an optional value a byte that tells its presence.
  pub encode : (t : Ty) → El t → Bytes
  encode (uint w) n = be_bytes w n
  encode (int w) z = be_bytes w (to_pattern w z)
  encode bool b = encode_bool b
  encode byte b = b ∷ []
  encode string s = be_bytes 8 (length s) ++ s
  encode (vector t) xs = be_bytes 8 (length xs) ++ encode_elems (encode t) xs
  encode (variant ts) a = be_bytes 1 (index ts a) ++ encode_held ts a
  encode (tuple ts) vs = encode_fields ts vs
  encode (pair a b) v = encode a v.0 ++ encode b v.1
  encode (array t n) xs = encode_array (encode t) n xs
  encode (optional t) o = encode_optional (encode t) o

  pub encode_held : (ts : Tys) → Alternative ts → Bytes
  encode_held nil a = []
  encode_held (cons t ts) (inl v) = encode t v
  encode_held (cons t ts) (inr a) = encode_held ts a

  pub encode_fields : (ts : Tys) → Fields ts → Bytes
  encode_fields nil vs = []
  encode_fields (cons t ts) (v, vs) = encode t v ++ encode_fields ts vs

serialize_bool-encode : (b : Bool) (to : Bytes) → serialize_bool b to ≡ to ++ encode_bool b
unfolding serialize_bool encode_bool
serialize_bool-encode true to = serialize_num-be native 1 1 to
serialize_bool-encode false to = serialize_num-be native 1 0 to

module _ {A : Type 0} (f : A → Bytes → Bytes) (g : A → Bytes)
    (appends : (x : A) (to : Bytes) → f x to ≡ to ++ g x) where
  serialize_elems-encode :
      (xs : List A) (to : Bytes) → serialize_elems f xs to ≡ to ++ encode_elems g xs
  unfolding serialize_elems encode_elems
  serialize_elems-encode [] to = sym (append-nil to)
  serialize_elems-encode (x ∷ xs) to =
      rw (serialize_elems-encode xs (f x to), appends x to, append_assoc)

  serialize_array-encode :
      (n : ℕ) (xs : Array A n) (to : Bytes) → serialize_array f n xs to ≡ to ++ encode_array g n xs
  unfolding serialize_array encode_array
  serialize_array-encode zero xs to = sym (append-nil to)
  serialize_array-encode (suc n) (x, xs) to =
      rw (serialize_array-encode n xs (f x to), appends x to, append_assoc)

  serialize_optional-encode :
      (o : Option A) (to : Bytes) → serialize_optional f o to ≡ to ++ encode_optional g o
  unfolding serialize_optional encode_optional
  serialize_optional-encode none to = serialize_bool-encode false to
  serialize_optional-encode (some x) to =
      rw (appends x (serialize_bool true to), serialize_bool-encode true to, append_assoc)

mutual
  unfolding serialize_to encode

  to_lem : (t : Ty) (v : El t) (to : Bytes) → serialize_to t v to ≡ to ++ encode t v
  to_lem (uint w) n to = serialize_num-be native w n to
  to_lem (int w) z to = serialize_num-be native w (to_pattern w z) to
  to_lem bool b to = serialize_bool-encode b to
  to_lem byte b to = refl
  to_lem string s to = rw (serialize_num-be native 8 (length s) to, append_assoc)
  to_lem (vector t) xs to = rw (
    serialize_elems-encode (serialize_to t) (encode t) (to_lem t) xs
        (serialize_num native 8 (length xs) to),
    serialize_num-be native 8 (length xs) to,
    append_assoc,
  )
  to_lem (variant ts) a to = rw (
    held_lem ts a (serialize_num native 1 (index ts a) to),
    serialize_num-be native 1 (index ts a) to,
    append_assoc,
  )
  to_lem (tuple ts) vs to = fields_lem ts vs to
  to_lem (pair a b) v to = rw (to_lem b v.1 (serialize_to a v.0 to), to_lem a v.0 to, append_assoc)
  to_lem (array t n) xs to = serialize_array-encode (serialize_to t) (encode t) (to_lem t) n xs to
  to_lem (optional t) o to = serialize_optional-encode (serialize_to t) (encode t) (to_lem t) o to

  held_lem :
      (ts : Tys) (a : Alternative ts) (to : Bytes) → serialize_held ts a to ≡ to ++ encode_held ts a
  held_lem nil a to = elim a [ ]
  held_lem (cons t ts) (inl v) to = to_lem t v to
  held_lem (cons t ts) (inr a) to = held_lem ts a to

  fields_lem :
      (ts : Tys) (vs : Fields ts) (to : Bytes)
      → serialize_fields ts vs to ≡ to ++ encode_fields ts vs
  fields_lem nil vs to = sym (append-nil to)
  fields_lem (cons t ts) (v, vs) to =
      rw (fields_lem ts vs (serialize_to t v to), to_lem t v to, append_assoc)

-- Serialising a value of any type appends its encoding to the output and changes nothing before it.
pub serialize_to-encode : (t : Ty) (v : El t) (to : Bytes) → serialize_to t v to ≡ to ++ encode t v
serialize_to-encode t v to = to_lem t v to

pub serialize-encode : (t : Ty) (v : El t) → serialize t v ≡ encode t v
unfolding serialize
serialize-encode t v = to_lem t v []
