-- ===== src/Wire/Integers.antt =====
-- The templates of rpc/include/rpc/serialization.hpp for integral types.
-- An object of `w` bytes lies in memory in the byte order of the machine, `std::endian::native`.
pub mod Laws
mod Tests
use smoljudge.Prelude.{
  ℕ, zero, suc, ◌+◌, ◌-◌, ◌*◌, ◌/◌, ◌%◌, ◌^◌, List, [], ◌∷◌, ◌++◌, reverse, length, take, drop, ltb,
  if◌then◌else◌,
}
use smoljudge.Prelude.Int.{ℤ, pos, negsuc}
use smoljudge.Prelude.Outcome.{Outcome, ok, throws, invalid_integral}
use smoljudge.Wire.Types.{Bytes}

pub data Endian : Type 0 where
  little big : Endian

-- The `w` bytes of a number, the lowest first, and the number that bytes stand for.
pub le_bytes : ℕ → ℕ → Bytes
le_bytes zero n = []
le_bytes (suc w) n = (n % 256) ∷ le_bytes w (n / 256)

pub le_value : Bytes → ℕ
le_value [] = 0
le_value (b ∷ bs) = b + 256 * le_value bs

pub object_bytes : Endian → ℕ → ℕ → Bytes
unfolding le_bytes
object_bytes little w n = le_bytes w n
object_bytes big w n = reverse (le_bytes w n)

pub object_value : Endian → Bytes → ℕ
unfolding le_value
object_value little bs = le_value bs
object_value big bs = le_value (reverse bs)

-- `if constexpr(std::endian::native == std::endian::little) std::reverse(begin, end);`
pub reverse_on_little : Endian → Bytes → Bytes
reverse_on_little little bs = reverse bs
reverse_on_little big bs = bs

unfoldable pub serialize_num : Endian → ℕ → ℕ → Bytes → Bytes
unfolding object_bytes reverse_on_little
serialize_num native w n to = to ++ reverse_on_little native (object_bytes native w n)

-- The argument is what stands between `ptr` and `end`; the result holds what is left of it.
unfoldable pub deserialize_num : Endian → ℕ → Bytes → Outcome (ℕ × Bytes)
unfolding object_value reverse_on_little
deserialize_num native w bs =
    if ltb (length bs) w
    then throws invalid_integral
    else ok (object_value native (reverse_on_little native (take w bs)), drop w bs)

-- The two's complement pattern of a signed integer of `w` bytes, and back.
unfoldable pub to_pattern : ℕ → ℤ → ℕ
to_pattern w (pos n) = n % 256 ^ w
to_pattern w (negsuc n) = 256 ^ w - 1 - n % 256 ^ w

unfoldable pub of_pattern : ℕ → ℕ → ℤ
of_pattern w m = if ltb (2 * m) (256 ^ w) then pos m else negsuc (256 ^ w - 1 - m)
