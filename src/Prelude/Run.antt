-- ===== src/Prelude/Run.antt =====
-- What a call that changes state comes to: it returns, it throws and leaves the state as it stands
-- at that point, or its behaviour is undefined.
use smoljudge.Prelude.Outcome.{Error, Outcome, ok, throws, undefined}
use mathlib.Core.Logic.{◌⊎◌, inl, inr}
use mathlib.Core.Path.{◌≡◌}

pub data Run {ℓ} (S : Type ℓ) : Type ℓ where
  done : S → Run S
  raised : Error → S → Run S
  wild : Run S

infixl 5 ◌>>=◌
abbrev pub ◌>>=◌ {ℓ} : {S : Type ℓ} → Run S → (S → Run S) → Run S
done s >>= f = f s
raised e s >>= f = raised e s
wild >>= f = wild

-- A call without effects, made in the state `s`.
abbrev pub with_value {ℓ κ} : {S : Type ℓ} {A : Type κ} → S → Outcome A → (A → Run S) → Run S
with_value s (ok a) k = k a
with_value s (throws e) k = raised e s
with_value s undefined k = wild

-- What holds of the state in which a run returns.
abbrev pub RunEnsures {ℓ κ} : {S : Type ℓ} → (S → Type κ) → Run S → Type κ
RunEnsures P (done s) = P s
RunEnsures P (raised e s) = Unit {κ}
RunEnsures P wild = Unit {κ}

-- What holds of the state that a run leaves, whether it returns or throws.
abbrev pub RunLeaves {ℓ κ} : {S : Type ℓ} → (S → Type κ) → Run S → Type κ
RunLeaves P (done s) = P s
RunLeaves P (raised e s) = P s
RunLeaves P wild = Unit {κ}

-- The run returns or throws in this state.
abbrev pub EndsIn {ℓ} : {S : Type ℓ} → Run S → S → Type ℓ
EndsIn r s = (r ≡ done s) ⊎ ((e : Error) × (r ≡ raised e s))

pub RunLeaves-EndsIn {ℓ κ} :
    {S : Type ℓ} (P : S → Type κ) (r : Run S) (s : S) → RunLeaves P r → EndsIn r s → P s
RunLeaves-EndsIn P r s h (inl e) = rw e at h
RunLeaves-EndsIn P r s h (inr (x, e)) = rw e at h

pub RunLeaves-imp {ℓ κ κ'} :
    {S : Type ℓ} (P : S → Type κ) (Q : S → Type κ') (r : Run S)
    → ((s : S) → P s → Q s)
    → RunLeaves P r
    → RunLeaves Q r
RunLeaves-imp P Q (done s) f h = f s h
RunLeaves-imp P Q (raised e s) f h = f s h
RunLeaves-imp P Q wild f h = tt
