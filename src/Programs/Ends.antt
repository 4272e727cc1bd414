-- ===== src/Programs/Ends.antt =====
-- How a `main` ends: rules for chains of calls.
use smoljudge.Prelude.{ℕ, ◌≡◌, refl}
use smoljudge.Prelude.Outcome.{Outcome, ok, throws, undefined}
use smoljudge.Programs.{Main, serving, returned, uncaught, unspecified, main_then, main_value}

-- What holds of what a program holds when it serves, and of the code that it returns before.
abbrev pub MainEnsures : {S : Type 0} → (S → Type 0) → (ℕ → Type 0) → Main S → Type 0
MainEnsures P Q (serving s) = P s
MainEnsures P Q (returned code) = Q code
MainEnsures P Q (uncaught e) = Unit {0}
MainEnsures P Q unspecified = Unit {0}

module _ (Q : ℕ → Type 0) where
  pub main_then-Ensures :
      {S T : Type 0} (P : S → Type 0) (R : T → Type 0) (m : Main S) (k : S → Main T)
      → MainEnsures P Q m
      → ((s : S) → P s → MainEnsures R Q (k s))
      → MainEnsures R Q (main_then m k)
  main_then-Ensures P R (serving s) k h go = go s h
  main_then-Ensures P R (returned code) k h go = h
  main_then-Ensures P R (uncaught e) k h go = tt
  main_then-Ensures P R unspecified k h go = tt

  pub main_value-Ensures :
      {A T : Type 0} (R : T → Type 0) (o : Outcome A) (k : A → Main T)
      → ((a : A) → o ≡ ok a → MainEnsures R Q (k a))
      → MainEnsures R Q (main_value o k)
  main_value-Ensures R (ok a) k go = go a refl
  main_value-Ensures R (throws e) k go = tt
  main_value-Ensures R undefined k go = tt

abbrev pub IsOne : ℕ → Type 0
IsOne code = code ≡ 1

pub MainEnsures-imp :
    {S : Type 0} (P R : S → Type 0) (Q : ℕ → Type 0) (m : Main S)
    → ((s : S) → P s → R s)
    → MainEnsures P Q m
    → MainEnsures R Q m
MainEnsures-imp P R Q (serving s) f h = f s h
MainEnsures-imp P R Q (returned code) f h = h
MainEnsures-imp P R Q (uncaught e) f h = tt
MainEnsures-imp P R Q unspecified f h = tt

pub MainEnsures-codes :
    {S : Type 0} (P : S → Type 0) (Q R : ℕ → Type 0) (m : Main S)
    → ((code : ℕ) → Q code → R code)
    → MainEnsures P Q m
    → MainEnsures P R m
MainEnsures-codes P Q R (serving s) f h = h
MainEnsures-codes P Q R (returned code) f h = f code h
MainEnsures-codes P Q R (uncaught e) f h = tt
MainEnsures-codes P Q R unspecified f h = tt
