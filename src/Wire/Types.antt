-- ===== src/Wire/Types.antt =====
-- The types for which rpc/include/rpc/serialization.hpp declares `serialize_to` and
-- `deserialize_to`, and their values. A template parameter pack `Types...` is a `Tys`.
use smoljudge.Prelude.{
  ℕ, zero, suc, ◌+◌, ◌*◌, ◌^◌, ◌≤◌, ◌<◌, ◌⊎◌, inl, inr, Bool, List, Option, none, some, length, All,
}
use smoljudge.Prelude.Int.{ℤ, pos, negsuc}

mutual
  -- `uint w` and `int w` are the integral types of `w` bytes, `char` among them as `int 1`.
  pub data Ty : Type 0 where
    uint : ℕ → Ty
    int : ℕ → Ty
    bool : Ty
    byte : Ty
    string : Ty
    vector : Ty → Ty
    variant : Tys → Ty
    tuple : Tys → Ty
    pair : Ty → Ty → Ty
    array : Ty → ℕ → Ty
    optional : Ty → Ty

  pub data Tys : Type 0 where
    nil : Tys
    cons : Ty → Tys → Tys

abbrev pub Bytes : Type 0
Bytes = List ℕ

-- `std::array<T, N>`.
abbrev pub Array : Type 0 → ℕ → Type 0
Array A zero = Unit {0}
Array A (suc n) = A × Array A n

abbrev mutual
  pub El : Ty → Type 0
  El (uint w) = ℕ
  El (int w) = ℤ
  El bool = Bool
  El byte = ℕ
  El string = List ℕ
  El (vector t) = List (El t)
  El (variant ts) = Alternative ts
  El (tuple ts) = Fields ts
  El (pair a b) = El a × El b
  El (array t n) = Array (El t) n
  El (optional t) = Option (El t)

  -- A value of `std::variant<Types...>`: which alternative it holds, and that alternative's value.
  pub Alternative : Tys → Type 0
  Alternative nil = ⊥
  Alternative (cons t ts) = El t ⊎ Alternative ts

  pub Fields : Tys → Type 0
  Fields nil = Unit {0}
  Fields (cons t ts) = El t × Fields ts

-- `sizeof...(Types)`.
unfoldable pub count : Tys → ℕ
count nil = 0
count (cons t ts) = suc (count ts)

-- `std::variant::index`.
unfoldable pub index : (ts : Tys) → Alternative ts → ℕ
index nil a = elim a [ ]
index (cons t ts) (inl v) = 0
index (cons t ts) (inr a) = suc (index ts a)

abbrev pub AllOf : {A : Type 0} → (A → Type 0) → Option A → Type 0
AllOf P none = Unit {0}
AllOf P (some a) = P a

abbrev pub AllIn : {A : Type 0} → (A → Type 0) → (n : ℕ) → Array A n → Type 0
AllIn P zero xs = Unit {0}
AllIn P (suc n) (x, xs) = P x × AllIn P n xs

abbrev pub IsByte : ℕ → Type 0
IsByte b = b < 256

abbrev pub IsUint : ℕ → ℕ → Type 0
IsUint w n = n < 256 ^ w

abbrev pub IsInt : ℕ → ℤ → Type 0
IsInt w (pos n) = 2 * n < 256 ^ w
IsInt w (negsuc n) = 2 * n + 2 ≤ 256 ^ w

-- The values that a C++ object of the type can have: integers in range, bytes below 256, lengths
-- that a `size_t` holds, and a variant with an index that a `uint8_t` holds.
abbrev mutual
  pub IsValue : (t : Ty) → El t → Type 0
  IsValue (uint w) n = IsUint w n
  IsValue (int w) z = IsInt w z
  IsValue bool b = Unit {0}
  IsValue byte b = IsByte b
  IsValue string s = All IsByte s × (length s < 256 ^ 8)
  IsValue (vector t) xs = All (IsValue t) xs × (length xs < 256 ^ 8)
  IsValue (variant ts) a = IsAlternative ts a × (index ts a < 256)
  IsValue (tuple ts) vs = IsFields ts vs
  IsValue (pair a b) v = IsValue a v.0 × IsValue b v.1
  IsValue (array t n) xs = AllIn (IsValue t) n xs
  IsValue (optional t) o = AllOf (IsValue t) o

  pub IsAlternative : (ts : Tys) → Alternative ts → Type 0
  IsAlternative nil a = ⊥
  IsAlternative (cons t ts) (inl v) = IsValue t v
  IsAlternative (cons t ts) (inr a) = IsAlternative ts a

  pub IsFields : (ts : Tys) → Fields ts → Type 0
  IsFields nil vs = Unit {0}
  IsFields (cons t ts) (v, vs) = IsValue t v × IsFields ts vs

-- Every variant in the value holds its first alternative, as a default-constructed one does.
abbrev mutual
  pub HoldsFirst : (t : Ty) → El t → Type 0
  HoldsFirst (uint w) n = Unit {0}
  HoldsFirst (int w) z = Unit {0}
  HoldsFirst bool b = Unit {0}
  HoldsFirst byte b = Unit {0}
  HoldsFirst string s = Unit {0}
  HoldsFirst (vector t) xs = All (HoldsFirst t) xs
  HoldsFirst (variant ts) a = AlternativeIsFirst ts a
  HoldsFirst (tuple ts) vs = FieldsHoldFirst ts vs
  HoldsFirst (pair a b) v = HoldsFirst a v.0 × HoldsFirst b v.1
  HoldsFirst (array t n) xs = AllIn (HoldsFirst t) n xs
  HoldsFirst (optional t) o = AllOf (HoldsFirst t) o

  pub AlternativeIsFirst : (ts : Tys) → Alternative ts → Type 0
  AlternativeIsFirst nil a = ⊥
  AlternativeIsFirst (cons t ts) (inl v) = HoldsFirst t v
  AlternativeIsFirst (cons t ts) (inr a) = ⊥

  pub FieldsHoldFirst : (ts : Tys) → Fields ts → Type 0
  FieldsHoldFirst nil vs = Unit {0}
  FieldsHoldFirst (cons t ts) (v, vs) = HoldsFirst t v × FieldsHoldFirst ts vs
