-- ===== src/Wire/Codec.antt =====
-- `serialize_to`, `deserialize_to`, `serialize` and `deserialize` of
-- rpc/include/rpc/serialization.hpp, by recursion on the type as the templates are instantiated.
-- `to` is the output vector, and an input is what stands between `ptr` and `end`.
pub mod Format
pub mod RoundTrip
pub mod Exact
pub mod Variants
pub mod Range
mod Tests
use smoljudge.Prelude.{
  ℕ, zero, suc, Bool, true, false, List, [], ◌∷◌, ◌++◌, length, take, drop, ltb, leb, ◌==◌,
  if◌then◌else◌, Option, none, some, inl, inr,
}
use smoljudge.Prelude.Outcome.{
  Outcome, ok, throws, undefined, ◌>>=◌, invalid_byte, invalid_variant, invalid_string,
  trailing_junk, bad_variant_access,
}
use smoljudge.Wire.Types.{
  Ty, Tys, uint, int, bool, byte, string, vector, variant, tuple, pair, array, optional, nil, cons,
  Bytes, Array, El, Alternative, Fields, count, index,
}
use smoljudge.Wire.Integers.{Endian, little, serialize_num, deserialize_num, to_pattern, of_pattern}

-- The machine that the program is built for.
abbrev pub native : Endian
native = little

pub serialize_bool : Bool → Bytes → Bytes
serialize_bool true to = serialize_num native 1 1 to
serialize_bool false to = serialize_num native 1 0 to

-- `for(const auto& elem: data) serialize_to(elem, to);`
unfoldable pub serialize_elems : {A : Type 0} → (A → Bytes → Bytes) → List A → Bytes → Bytes
serialize_elems f [] to = to
serialize_elems f (x ∷ xs) to = serialize_elems f xs (f x to)

pub serialize_array : {A : Type 0} → (A → Bytes → Bytes) → (n : ℕ) → Array A n → Bytes → Bytes
serialize_array f zero xs to = to
serialize_array f (suc n) (x, xs) to = serialize_array f n xs (f x to)

pub serialize_optional : {A : Type 0} → (A → Bytes → Bytes) → Option A → Bytes → Bytes
unfolding serialize_bool
serialize_optional f (some x) to = f x (serialize_bool true to)
serialize_optional f none to = serialize_bool false to

mutual
  pub serialize_to : (t : Ty) → El t → Bytes → Bytes
  serialize_to (uint w) n to = serialize_num native w n to
  serialize_to (int w) z to = serialize_num native w (to_pattern w z) to
  serialize_to bool b to = serialize_bool b to
  serialize_to byte b to = to ++ b ∷ []
  serialize_to string s to = serialize_num native 8 (length s) to ++ s
  serialize_to (vector t) xs to =
      serialize_elems (serialize_to t) xs (serialize_num native 8 (length xs) to)
  serialize_to (variant ts) a to = serialize_held ts a (serialize_num native 1 (index ts a) to)
  serialize_to (tuple ts) vs to = serialize_fields ts vs to
  serialize_to (pair a b) v to = serialize_to b v.1 (serialize_to a v.0 to)
  serialize_to (array t n) xs to = serialize_array (serialize_to t) n xs to
  serialize_to (optional t) o to = serialize_optional (serialize_to t) o to

  -- `std::visit`.
  pub serialize_held : (ts : Tys) → Alternative ts → Bytes → Bytes
  serialize_held nil a to = to
  serialize_held (cons t ts) (inl v) to = serialize_to t v to
  serialize_held (cons t ts) (inr a) to = serialize_held ts a to

  pub serialize_fields : (ts : Tys) → Fields ts → Bytes → Bytes
  serialize_fields nil vs to = to
  serialize_fields (cons t ts) (v, vs) to = serialize_fields ts vs (serialize_to t v to)

pub serialize : (t : Ty) → El t → Bytes
unfolding serialize_to
serialize t v = serialize_to t v []

-- Reading `bool has` copies a byte into it, and a `bool` that is neither 0 nor 1 has no meaning.
pub bool_of : ℕ → Outcome Bool
bool_of zero = ok false
bool_of (suc zero) = ok true
bool_of (suc (suc n)) = undefined

pub deserialize_bool : Bytes → Outcome (Bool × Bytes)
unfolding bool_of
deserialize_bool bs = do (b, rest) ← deserialize_num native 1 bs; has ← bool_of b; ok (has, rest)

unfoldable pub deserialize_byte : Bytes → Outcome (ℕ × Bytes)
deserialize_byte [] = throws invalid_byte
deserialize_byte (b ∷ bs) = ok (b, bs)

unfoldable pub deserialize_string : Bytes → Outcome (List ℕ × Bytes)
deserialize_string bs = do
  (size, rest) ← deserialize_num native 8 bs
  if ltb (length rest) size then throws invalid_string else ok (take size rest, drop size rest)

-- `for(uint64_t i = 0; i < size; i++) deserialize_to(ptr, end, to[i]);`
unfoldable pub deserialize_elems :
    {A : Type 0} → (Bytes → Outcome (A × Bytes)) → ℕ → Bytes → Outcome (List A × Bytes)
deserialize_elems f zero bs = ok ([], bs)
deserialize_elems f (suc n) bs = do
  (x, rest) ← f bs
  (xs, rest') ← deserialize_elems f n rest
  ok (x ∷ xs, rest')

unfoldable pub deserialize_array :
    {A : Type 0} → (Bytes → Outcome (A × Bytes)) → (n : ℕ) → Bytes → Outcome (Array A n × Bytes)
deserialize_array f zero bs = ok (tt, bs)
deserialize_array f (suc n) bs = do
  (x, rest) ← f bs
  (xs, rest') ← deserialize_array f n rest
  ok ((x, xs), rest')

pub deserialize_optional :
    {A : Type 0} → (Bytes → Outcome (A × Bytes)) → Bytes → Outcome (Option A × Bytes)
unfolding deserialize_bool
deserialize_optional f bs = do
  (has, rest) ← deserialize_bool bs
  if has then (do (x, rest') ← f rest; ok (some x, rest')) else ok (none, rest)

-- The alternative that `T to;` holds.
abbrev pub default_index : ℕ
default_index = 0

unfoldable mutual
  pub deserialize_to : (t : Ty) → Bytes → Outcome (El t × Bytes)
  deserialize_to (uint w) bs = deserialize_num native w bs
  deserialize_to (int w) bs = do (m, rest) ← deserialize_num native w bs; ok (of_pattern w m, rest)
  deserialize_to bool bs = deserialize_bool bs
  deserialize_to byte bs = deserialize_byte bs
  deserialize_to string bs = deserialize_string bs
  deserialize_to (vector t) bs = do
    (size, rest) ← deserialize_num native 8 bs
    deserialize_elems (deserialize_to t) size rest
  deserialize_to (variant ts) bs = do
    (i, rest) ← deserialize_num native 1 bs
    let read = deserialize_held ts i rest
    if leb (count ts) i
        then throws invalid_variant
        else (if i == default_index then read else throws bad_variant_access)
  deserialize_to (tuple ts) bs = deserialize_fields ts bs
  deserialize_to (pair a b) bs = do
    (x, rest) ← deserialize_to a bs
    (y, rest') ← deserialize_to b rest
    ok ((x, y), rest')
  deserialize_to (array t n) bs = deserialize_array (deserialize_to t) n bs
  deserialize_to (optional t) bs = deserialize_optional (deserialize_to t) bs

  -- `deserialize_to(ptr, end, std::get<I>(to))` for a `to` that holds alternative `I`.
  pub deserialize_held : (ts : Tys) → ℕ → Bytes → Outcome (Alternative ts × Bytes)
  deserialize_held nil i bs = throws bad_variant_access
  deserialize_held (cons t ts) zero bs = do (v, rest) ← deserialize_to t bs; ok (inl v, rest)
  deserialize_held (cons t ts) (suc i) bs = do
    (a, rest) ← deserialize_held ts i bs
    ok (inr a, rest)

  pub deserialize_fields : (ts : Tys) → Bytes → Outcome (Fields ts × Bytes)
  deserialize_fields nil bs = ok (tt, bs)
  deserialize_fields (cons t ts) bs = do
    (v, rest) ← deserialize_to t bs
    (vs, rest') ← deserialize_fields ts rest
    ok ((v, vs), rest')

-- `if(ptr != end) throw`
unfoldable pub finish : {A : Type 0} → A × Bytes → Outcome A
finish (v, []) = ok v
finish (v, b ∷ bs) = throws trailing_junk

pub deserialize : (t : Ty) → Bytes → Outcome (El t)
unfolding deserialize_to finish
deserialize t bs = do r ← deserialize_to t bs; finish r

-- `deserialize<void>`.
unfoldable pub deserialize_void : Bytes → Outcome (Unit {0})
deserialize_void [] = ok tt
deserialize_void (b ∷ bs) = throws trailing_junk
