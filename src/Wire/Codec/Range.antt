-- ===== src/Wire/Codec/Range.antt =====
-- What is written are bytes.
use smoljudge.Prelude.{
  ℕ, zero, suc, sym, subst, true, false, List, [], ◌∷◌, length, Option, none, some, inl, inr, All,
  All-append,
}
use smoljudge.Wire.Types.{
  Ty, Tys, uint, int, bool, byte, string, vector, variant, tuple, pair, array, optional, nil, cons,
  Bytes, Array, El, Alternative, Fields, index, IsByte, IsValue, IsAlternative, IsFields, AllOf,
  AllIn,
}
use smoljudge.Wire.Integers.{to_pattern}
use smoljudge.Wire.Integers.Laws.{be_bytes, be_bytes-IsByte}
use smoljudge.Wire.Codec.{serialize}
use smoljudge.Wire.Codec.Format.{
  encode, encode_held, encode_fields, encode_elems, encode_array, encode_optional, encode_bool,
  serialize-encode,
}

module _ {A : Type 0} (g : A → Bytes) (P : A → Type 0)
    (each : (a : A) → P a → All IsByte (g a)) where
  encode_elems-IsByte : (xs : List A) → All P xs → All IsByte (encode_elems g xs)
  unfolding encode_elems
  encode_elems-IsByte [] h = tt
  encode_elems-IsByte (x ∷ xs) h =
      All-append IsByte (g x) (encode_elems g xs) (each x h.0) (encode_elems-IsByte xs h.1)

  encode_array-IsByte : (n : ℕ) (xs : Array A n) → AllIn P n xs → All IsByte (encode_array g n xs)
  unfolding encode_array
  encode_array-IsByte zero xs h = tt
  encode_array-IsByte (suc n) (x, xs) h =
      All-append IsByte (g x) (encode_array g n xs) (each x h.0) (encode_array-IsByte n xs h.1)

  encode_optional-IsByte : (o : Option A) → AllOf P o → All IsByte (encode_optional g o)
  unfolding encode_optional encode_bool
  encode_optional-IsByte none h = be_bytes-IsByte 1 0
  encode_optional-IsByte (some x) h =
      All-append IsByte (be_bytes 1 1) (g x) (be_bytes-IsByte 1 1) (each x h)

mutual
  unfolding encode encode_bool

  pub encode-IsByte : (t : Ty) (v : El t) → IsValue t v → All IsByte (encode t v)
  encode-IsByte (uint w) n h = be_bytes-IsByte w n
  encode-IsByte (int w) z h = be_bytes-IsByte w (to_pattern w z)
  encode-IsByte bool true h = be_bytes-IsByte 1 1
  encode-IsByte bool false h = be_bytes-IsByte 1 0
  encode-IsByte byte b h = (h, tt)
  encode-IsByte string s h =
      All-append IsByte (be_bytes 8 (length s)) s (be_bytes-IsByte 8 (length s)) h.0
  encode-IsByte (vector t) xs h =
      All-append IsByte (be_bytes 8 (length xs)) (encode_elems (encode t) xs)
        (be_bytes-IsByte 8 (length xs))
        (encode_elems-IsByte (encode t) (IsValue t) (encode-IsByte t) xs h.0)
  encode-IsByte (variant ts) a h =
      All-append IsByte (be_bytes 1 (index ts a)) (encode_held ts a)
        (be_bytes-IsByte 1 (index ts a)) (encode_held-IsByte ts a h.0)
  encode-IsByte (tuple ts) vs h = encode_fields-IsByte ts vs h
  encode-IsByte (pair a b) v h =
      All-append IsByte (encode a v.0) (encode b v.1) (encode-IsByte a v.0 h.0)
        (encode-IsByte b v.1 h.1)
  encode-IsByte (array t n) xs h =
      encode_array-IsByte (encode t) (IsValue t) (encode-IsByte t) n xs h
  encode-IsByte (optional t) o h =
      encode_optional-IsByte (encode t) (IsValue t) (encode-IsByte t) o h

  encode_held-IsByte :
      (ts : Tys) (a : Alternative ts) → IsAlternative ts a → All IsByte (encode_held ts a)
  encode_held-IsByte nil a h = elim h [ ]
  encode_held-IsByte (cons t ts) (inl v) h = encode-IsByte t v h
  encode_held-IsByte (cons t ts) (inr a) h = encode_held-IsByte ts a h

  encode_fields-IsByte :
      (ts : Tys) (vs : Fields ts) → IsFields ts vs → All IsByte (encode_fields ts vs)
  encode_fields-IsByte nil vs h = tt
  encode_fields-IsByte (cons t ts) (v, vs) h =
      All-append IsByte (encode t v) (encode_fields ts vs) (encode-IsByte t v h.0)
        (encode_fields-IsByte ts vs h.1)

pub serialize-IsByte : (t : Ty) (v : El t) → IsValue t v → All IsByte (serialize t v)
serialize-IsByte t v h = subst (All IsByte) (sym (serialize-encode t v)) (encode-IsByte t v h)
