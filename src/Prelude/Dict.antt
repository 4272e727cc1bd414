-- ===== src/Prelude/Dict.antt =====
-- `std::map` as an association list. Nothing in the program depends on the order of its keys.
use Prim.Native.Nat.{ℕ}
use mathlib.Core.Path.{◌≡◌, refl, subst}
use mathlib.Core.Bool.{Bool, true}
use mathlib.Core.Logic.{◌↔◌}
use mathlib.Core.Option.{Option, none, some}
use mathlib.Core.List.{List, [], ◌∷◌}
use native.Mathlib.Omega.{arith}
use smoljudge.Prelude.Text.{Text}
use smoljudge.Prelude.Tests.{
  ◌==◌ as nat_beq, ==_iff, bytes_eq, bytes_eq_refl, bytes_eq→eq, if◌then◌else◌,
}

pub record Eq (A : Type 0) : Type 0 where
  pub beq : A → A → Bool
  pub beq_iff : (x y : A) → (beq x y ≡ true) ↔ (x ≡ y)

pub bytes_eq_iff : (a b : Text) → (bytes_eq a b ≡ true) ↔ (a ≡ b)
bytes_eq_iff a b = (bytes_eq→eq a b, λ e. subst (λ c. bytes_eq a c ≡ true) e (bytes_eq_refl a))

instance abbrev pub nat_eq : Eq ℕ
nat_eq = record { beq = nat_beq; beq_iff = ==_iff }

instance abbrev pub text_eq : Eq Text
text_eq = record { beq = bytes_eq; beq_iff = bytes_eq_iff }

infix 50 ◌==◌
abbrev pub ◌==◌ : {A : Type 0} ⦃e : Eq A⦄ → A → A → Bool
◌==◌ ⦃e⦄ = e.beq

pub ==-refl : {A : Type 0} ⦃e : Eq A⦄ (a : A) → (a == a) ≡ true
==-refl ⦃e⦄ a = (e.beq_iff a a).1 refl

abbrev pub Dict : Type 0 → Type 0 → Type 0
Dict K V = List (K × V)

module _ {K : Type 0} {V : Type 0} ⦃e : Eq K⦄ where
  unfoldable pub lookup : K → Dict K V → Option V
  lookup k [] = none
  lookup k ((j, v) ∷ m) = if j == k then some v else lookup k m

  unfoldable pub erase : K → Dict K V → Dict K V
  erase k [] = []
  erase k ((j, v) ∷ m) = if j == k then erase k m else (j, v) ∷ erase k m

  -- `m[k] = v`.
  unfoldable pub assign : K → V → Dict K V → Dict K V
  unfolding erase
  assign k v m = (k, v) ∷ erase k m

  -- `insert` and `emplace`: a key that is there keeps its value.
  unfoldable pub emplace : K → V → Dict K V → Dict K V
  unfolding lookup
  emplace k v m = elim (lookup k m) [ none ↦ (k, v) ∷ m | some w ↦ m ]

  pub lookup-erase :
      (k j : K) (m : Dict K V) → lookup j (erase k m) ≡ (if k == j then none else lookup j m)
  unfolding lookup erase
  lookup-erase k j [] = ground arith
  lookup-erase k j ((i, w) ∷ m) =
      ground (arith, e.beq_iff k j, e.beq_iff i k, e.beq_iff i j, lookup-erase k j m)

  pub lookup-assign :
      (k j : K) (v : V) (m : Dict K V)
      → lookup j (assign k v m) ≡ (if k == j then some v else lookup j m)
  unfolding lookup assign
  lookup-assign k j v m = ground (arith, lookup-erase k j m)

  pub lookup-emplace :
      (k j : K) (v : V) (m : Dict K V)
      → lookup k m ≡ none
      → lookup j (emplace k v m) ≡ (if k == j then some v else lookup j m)
  unfolding lookup emplace
  lookup-emplace k j v m h = rw (h, emplace)

  pub lookup-emplace_old :
      (k j : K) (v w : V) (m : Dict K V)
      → lookup k m ≡ some w
      → lookup j (emplace k v m) ≡ lookup j m
  unfolding emplace
  lookup-emplace_old k j v w m h = rw (h, emplace)
