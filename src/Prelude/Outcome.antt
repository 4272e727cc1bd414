-- ===== src/Prelude/Outcome.antt =====
-- What a call in the program comes to: a value, a thrown exception, or undefined behaviour.
use mathlib.Core.Path.{◌≡◌, refl, subst}
use mathlib.Core.Logic.{◌⊎◌, inl, inr}

-- The exceptions that the modelled code throws, by the place that throws them.
pub data Error : Type 0 where
  invalid_integral invalid_byte invalid_variant invalid_string trailing_junk : Error
  bad_variant_access : Error
  not_connected : Error
  out_of_range : Error
  no_port unresolved_name : Error
  filesystem_error : Error

pub data Outcome {ℓ} (A : Type ℓ) : Type ℓ where
  ok : A → Outcome A
  throws : Error → Outcome A
  undefined : Outcome A

infixl 5 ◌>>=◌
abbrev pub ◌>>=◌ {ℓ κ} : {A : Type ℓ} {B : Type κ} → Outcome A → (A → Outcome B) → Outcome B
ok a >>= f = f a
throws e >>= f = throws e
undefined >>= f = undefined

-- A chain of two calls returns only if both do.
pub both_return {ℓ κ} :
    {A : Type ℓ} {B : Type κ} (first : Outcome A) (second : A → Outcome B) (result : B)
    → first >>= second ≡ ok result
    → (between : A) × (first ≡ ok between) × (second between ≡ ok result)
both_return (ok between) second result e = (between, refl, e)
both_return (throws error) second result e = cc
both_return undefined second result e = cc

-- If the call returns a value, the value has the property.
pub data Ensures {ℓ κ} {A : Type ℓ} (P : A → Type κ) : Outcome A → Type (ℓ ⊔ κ) where
  returns : {a : A} → P a → Ensures P (ok a)
  threw : {e : Error} → Ensures P (throws e)
  lost : Ensures P undefined

pub Ensures-bind {ℓ κ ℓ' κ'} :
    {A : Type ℓ} {B : Type ℓ'} {P : A → Type κ} {Q : B → Type κ'} {m : Outcome A}
    {f : A → Outcome B}
    → Ensures P m
    → ((a : A) → P a → Ensures Q (f a))
    → Ensures Q (m >>= f)
Ensures-bind (returns {a} p) k = k a p
Ensures-bind threw k = threw
Ensures-bind lost k = lost

pub Ensures-ok {ℓ κ} :
    {A : Type ℓ} {P : A → Type κ} {m : Outcome A} {a : A} → Ensures P m → m ≡ ok a → P a
Ensures-ok {P} {a} (returns {a = b} p) e = let same : b ≡ a = cc in subst P same p
Ensures-ok threw e = cc
Ensures-ok lost e = cc

-- What holds of any value that an equation shows the call to return.
pub Ensures-intro {ℓ κ} :
    {A : Type ℓ} (P : A → Type κ) (m : Outcome A) → ((a : A) → m ≡ ok a → P a) → Ensures P m
Ensures-intro P (ok a) k = returns (k a refl)
Ensures-intro P (throws e) k = threw
Ensures-intro P undefined k = lost

pub Ensures-weaken {ℓ κ κ'} :
    {A : Type ℓ} {P : A → Type κ} {Q : A → Type κ'} {m : Outcome A}
    → Ensures P m
    → ((a : A) → P a → Q a)
    → Ensures Q m
Ensures-weaken (returns {a} p) k = returns (k a p)
Ensures-weaken threw k = threw
Ensures-weaken lost k = lost

pub Outcome-cases {ℓ} :
    {A : Type ℓ} (m : Outcome A)
    → ((a : A) × (m ≡ ok a)) ⊎ (((e : Error) × (m ≡ throws e)) ⊎ (m ≡ undefined))
Outcome-cases (ok a) = inl (a, refl)
Outcome-cases (throws e) = inr (inl (e, refl))
Outcome-cases undefined = inr (inr refl)
