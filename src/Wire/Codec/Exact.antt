-- ===== src/Wire/Codec/Exact.antt =====
-- `deserialize` accepts nothing but what `serialize` writes.
use smoljudge.Prelude.{
  ℕ, zero, suc, ◌^◌, ◌<◌, ◌≡◌, refl, sym, ap, subst, ◌∙◌, Bool, true, false, [], ◌∷◌, ◌++◌,
  append_assoc, append-nil, length, All, All-append_right, none, some, inl, inr, arith, tests, leb,
  ltb, Bool-cases, take, take-append-drop, All-take, All-drop, ==_iff, length-take_le, ◌==◌,
  if◌then◌else◌,
}
use smoljudge.Prelude.Outcome.{
  Outcome, ok, throws, ◌>>=◌, both_return, Ensures, returns, threw, lost, Ensures-bind, Ensures-ok,
  Ensures-intro, Ensures-weaken, bad_variant_access, invalid_variant,
}
use smoljudge.Wire.Types.{
  Ty, Tys, uint, int, bool, byte, string, vector, variant, tuple, pair, array, optional, nil, cons,
  Bytes, El, Alternative, count, index, IsValue, IsAlternative, IsFields, HoldsFirst,
  AlternativeIsFirst, FieldsHoldFirst, AllIn, AllOf, IsByte, IsUint,
}
use smoljudge.Wire.Integers.{deserialize_num}
use smoljudge.Wire.Integers.Laws.{be_bytes, be_bytes-deserialize_num, to_pattern-of_pattern}
use smoljudge.Wire.Codec.{
  native, serialize, bool_of, deserialize_bool, deserialize_string, deserialize_elems,
  deserialize_array, deserialize_optional, deserialize_to, deserialize_held, deserialize_fields,
  finish, deserialize, deserialize_byte, default_index,
}
use smoljudge.Wire.Codec.Format.{
  encode_bool, encode_elems, encode_array, encode_optional, encode, encode_held, encode_fields,
  serialize-encode,
}
use mathlib.Core.Path.{ap₂}

-- Only values with both properties are returned, and only where `g` of the value stands in front.
abbrev pub Takes :
    {A : Type 0} → (A → Bytes) → (A → Type 0) → (A → Type 0) → Bytes → A × Bytes → Type 0
Takes g P Q bs (x, rest) = (bs ≡ g x ++ rest) × All IsByte rest × P x × Q x

abbrev pub Exact :
    {A : Type 0}
    → (Bytes → Outcome (A × Bytes))
    → (A → Bytes)
    → (A → Type 0)
    → (A → Type 0)
    → Type 0
Exact f g P Q = (bs : Bytes) → All IsByte bs → Ensures (Takes g P Q bs) (f bs)

abbrev Anything : {A : Type 0} → A → Type 0
Anything x = Unit {0}

pub chain :
    {bs rest : Bytes} (rest' a b : Bytes)
    → bs ≡ a ++ rest
    → rest ≡ b ++ rest'
    → bs ≡ (a ++ b) ++ rest'
chain rest' a b p q = p ∙ ap (◌++◌ a) q ∙ sym (append_assoc a b rest')

num_lem : (w : ℕ) → Exact (deserialize_num native w) (be_bytes w) (IsUint w) Anything
num_lem w bs h = Ensures-intro _ (deserialize_num native w bs) λ (n, rest) e.
    let (bytes, range) = be_bytes-deserialize_num native w bs h e in
    (bytes, All-append_right IsByte (be_bytes w n) rest (subst (All IsByte) bytes h), range, tt)

bool_of_lem : (n : ℕ) → Ensures (λ b. be_bytes 1 n ≡ encode_bool b) (bool_of n)
unfolding bool_of encode_bool
bool_of_lem zero = returns refl
bool_of_lem (suc zero) = returns refl
bool_of_lem (suc (suc n)) = lost

bool_lem : Exact deserialize_bool encode_bool Anything Anything
unfolding deserialize_bool
bool_lem bs h = Ensures-bind (num_lem 1 bs h) λ (n, rest) (e, hr, p, _).
    Ensures-bind (bool_of_lem n) λ b eb. returns (e ∙ ap (λ t. t ++ rest) eb, hr, tt, tt)

byte_lem : Exact deserialize_byte (λ b. b ∷ []) IsByte Anything
unfolding deserialize_byte
byte_lem [] h = threw
byte_lem (b ∷ bs) h = returns (refl, h.1, h.0, tt)

string_lem :
    Exact deserialize_string
      (λ s. be_bytes 8 (length s) ++ s)
      (λ s. All IsByte s × (length s < 256 ^ 8))
      Anything
unfolding deserialize_string
string_lem bs h = Ensures-bind (num_lem 8 bs h) λ (size, rest) (e, hr, p, _).
    elim (Bool-cases (ltb (length rest) size)) [
      | inl short ↦ rw short threw
      | inr enough ↦
          let len = length-take_le size rest (omega (tests, enough)) in
          rw enough (
            returns (
              chain _ (be_bytes 8 (length (take size rest))) (take size rest) (rw len e)
                  (sym (take-append-drop size rest)),
              All-drop IsByte size rest hr,
              (All-take IsByte size rest hr, rw len p),
              tt,
            ))
    ]

module _ {A : Type 0} (f : Bytes → Outcome (A × Bytes)) (g : A → Bytes) (P Q : A → Type 0)
    (exact : Exact f g P Q) where
  elems_lem :
      (n : ℕ)
      → Exact (deserialize_elems f n) (encode_elems g) (λ xs. All P xs × (length xs ≡ n)) (All Q)
  unfolding deserialize_elems encode_elems
  elems_lem zero bs h = returns (refl, h, (tt, refl), tt)
  elems_lem (suc n) bs h = Ensures-bind (exact bs h) λ (x, rest) (e, hr, p, q).
      Ensures-bind (elems_lem n rest hr) λ (xs, rest') (e', hr', p', q').
        returns (chain _ (g x) (encode_elems g xs) e e', hr', ((p, p'.0), ap suc p'.1), (q, q'))

  array_lem : (n : ℕ) → Exact (deserialize_array f n) (encode_array g n) (AllIn P n) (AllIn Q n)
  unfolding deserialize_array encode_array
  array_lem zero bs h = returns (refl, h, tt, tt)
  array_lem (suc n) bs h = Ensures-bind (exact bs h) λ (x, rest) (e, hr, p, q).
      Ensures-bind (array_lem n rest hr) λ (xs, rest') (e', hr', p', q').
        returns (chain _ (g x) (encode_array g n xs) e e', hr', (p, p'), (q, q'))

  present_lem :
      (has : Bool) (bs rest : Bytes)
      → bs ≡ encode_bool has ++ rest
      → All IsByte rest
      → Ensures
          (Takes (encode_optional g) (AllOf P) (AllOf Q) bs)
          (if has then (do (x, rest') ← f rest; ok (some x, rest')) else ok (none, rest))
  unfolding encode_optional
  present_lem true bs rest e hr =
      Ensures-bind (exact rest hr)
        λ (x, rest') (e', hr', p', q'). returns (chain _ (encode_bool true) (g x) e e', hr', p', q')
  present_lem false bs rest e hr = returns (e, hr, tt, tt)

  optional_lem : Exact (deserialize_optional f) (encode_optional g) (AllOf P) (AllOf Q)
  unfolding deserialize_optional
  optional_lem bs h =
      Ensures-bind (bool_lem bs h) λ (has, rest) (e, hr, p, q). present_lem has bs rest e hr

-- What the checks before `std::get<I>` leave: the alternative with index 0.
variant_lem :
    (ts : Tys) (i : ℕ) (read : Outcome (Alternative ts × Bytes))
    (R : Alternative ts × Bytes → Type 0)
    → (i ≡ 0 → 0 < count ts → Ensures R read)
    → Ensures R (
        if leb (count ts) i
        then throws invalid_variant
        else (if i == default_index then read else throws bad_variant_access))
variant_lem ts i read R k = elim (Bool-cases (leb (count ts) i)) [
  | inl e ↦ rw e threw
  | inr e ↦ rw e (elim (Bool-cases (i == 0)) [
    | inl z ↦ rw z (k ((==_iff i 0).0 z) (ground arith))
    | inr z ↦ rw z threw
  ])
]

mutual
  unfolding deserialize_to encode index

  to_lem : (t : Ty) → Exact (deserialize_to t) (encode t) (IsValue t) (HoldsFirst t)
  to_lem (uint w) bs h = num_lem w bs h
  to_lem (int w) bs h = Ensures-bind (num_lem w bs h) λ (m, rest) (e, hr, p, _).
      let (same, range) = to_pattern-of_pattern w m p in returns (rw same e, hr, range, tt)
  to_lem bool bs h = bool_lem bs h
  to_lem byte bs h = byte_lem bs h
  to_lem string bs h = string_lem bs h
  to_lem (vector t) bs h = Ensures-bind (num_lem 8 bs h) λ (size, rest) (e, hr, p, _).
      Ensures-weaken
        (elems_lem (deserialize_to t) (encode t) (IsValue t) (HoldsFirst t) (to_lem t) size rest hr)
        λ (xs, rest') (e', hr', (p', len), q'). (
          chain _ (be_bytes 8 (length xs)) (encode_elems (encode t) xs) (rw len e) e',
          hr',
          (p', rw len p),
          q',
        )
  to_lem (variant ts) bs h = Ensures-bind (num_lem 1 bs h) λ (i, rest) (e, hr, p, _).
      variant_lem ts i (deserialize_held ts i rest) _ λ z pos.
        Ensures-weaken (held_lem ts i rest hr z) λ (a, rest') (e', hr', (p', ix), q'). (
          chain _ (be_bytes 1 (index ts a)) (encode_held ts a) (rw (ix, sym z) e) e',
          hr',
          (p', rw ix (omega arith)),
          q',
        )
  to_lem (tuple ts) bs h = fields_lem ts bs h
  to_lem (pair a b) bs h = Ensures-bind (to_lem a bs h) λ (x, rest) (e, hr, p, q).
      Ensures-bind (to_lem b rest hr) λ (y, rest') (e', hr', p', q').
        returns (chain _ (encode a x) (encode b y) e e', hr', (p, p'), (q, q'))
  to_lem (array t n) bs h =
      array_lem (deserialize_to t) (encode t) (IsValue t) (HoldsFirst t) (to_lem t) n bs h
  to_lem (optional t) bs h =
      optional_lem (deserialize_to t) (encode t) (IsValue t) (HoldsFirst t) (to_lem t) bs h

  held_lem :
      (ts : Tys) (i : ℕ) (bs : Bytes)
      → All IsByte bs
      → i ≡ 0
      → Ensures
          (Takes
            (encode_held ts)
            (λ a. IsAlternative ts a × (index ts a ≡ 0))
            (AlternativeIsFirst ts)
            bs)
          (deserialize_held ts i bs)
  held_lem nil i bs h z = threw
  held_lem (cons t ts) zero bs h z =
      Ensures-bind (to_lem t bs h) λ (v, rest) (e, hr, p, q). returns (e, hr, (p, refl), q)
  held_lem (cons t ts) (suc i) bs h z = cc

  fields_lem :
      (ts : Tys)
      → Exact (deserialize_fields ts) (encode_fields ts) (IsFields ts) (FieldsHoldFirst ts)
  fields_lem nil bs h = returns (refl, h, tt, tt)
  fields_lem (cons t ts) bs h = Ensures-bind (to_lem t bs h) λ (v, rest) (e, hr, p, q).
      Ensures-bind (fields_lem ts rest hr) λ (vs, rest') (e', hr', p', q').
        returns (chain _ (encode t v) (encode_fields ts vs) e e', hr', (p, p'), (q, q'))

pub deserialize_to-Exact : (t : Ty) → Exact (deserialize_to t) (encode t) (IsValue t) (HoldsFirst t)
deserialize_to-Exact t bs h = to_lem t bs h

-- Bytes that `deserialize_to` takes are the encoding of the value that it returns, which is in
-- range and has the first alternative in each variant; nothing of the input is lost.
pub encode-deserialize_to :
    (t : Ty) (bs : Bytes) (v : El t) (rest : Bytes)
    → All IsByte bs
    → deserialize_to t bs ≡ ok (v, rest)
    → (bs ≡ encode t v ++ rest) × All IsByte rest × IsValue t v × HoldsFirst t v
encode-deserialize_to t bs v rest h e = Ensures-ok (to_lem t bs h) e

pub finish_lem :
    {A : Type 0} (v w : A) (rest : Bytes) → finish (v, rest) ≡ ok w → (v ≡ w) × (rest ≡ [])
unfolding finish
finish_lem v w [] e = (cc, refl)
finish_lem v w (b ∷ bs) e = cc

-- Bytes that `deserialize` accepts are the ones that `serialize` writes for the result, and the
-- result is in range and holds the first alternative of each of its variants.
pub serialize-deserialize :
    (t : Ty) (bs : Bytes) (v : El t)
    → All IsByte bs
    → deserialize t bs ≡ ok v
    → (serialize t v ≡ bs) × IsValue t v × HoldsFirst t v
unfolding deserialize
serialize-deserialize t bs v h e =
    let ((w, rest), got, done) = both_return (deserialize_to t bs) finish v e in
    let (same, nothing) = finish_lem w v rest done in
    let (bytes, hr, p, q) =
      encode-deserialize_to t bs v [] h (got ∙ ap₂ (λ a b. ok (a, b)) same nothing) in
    (serialize-encode t v ∙ sym (append-nil (encode t v)) ∙ sym bytes, p, q)
