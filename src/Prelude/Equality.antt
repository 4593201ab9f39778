-- ===== src/Prelude/Equality.antt =====
-- Equality tests (Rust's `PartialEq`) as an interface with one operator.
use mathlib.Core.Path.{◌≡◌, refl}
use mathlib.Core.Logic.{◌↔◌}
use mathlib.Core.Bool.{Bool, true, false, ◌&&◌, ◌||◌}
use mathlib.Core.Option.{Option, none, some}
use mathlib.Core.List.{List, [], ◌∷◌}
use Prim.Native.Nat.{ℕ}
use native.Mathlib.Omega.{arith}
use identity_crypto.Prelude.Tests.{nat_beq, nat_beq_iff}

pub record PartialEq {ℓ} (T : Type ℓ) : Type ℓ where
  pub eq : T → T → Bool
  pub eq_iff : (x y : T) → (eq x y ≡ true) ↔ (x ≡ y)

infix 50 ◌==◌ ◌!=◌
abbrev pub ◌!=◌ {ℓ} : {T : Type ℓ} ⦃i : PartialEq T⦄ → T → T → Bool
◌!=◌ ⦃i⦄ x y = elim (i.eq x y) [ true ↦ false | false ↦ true ]

abbrev pub ◌==◌ {ℓ} : {T : Type ℓ} ⦃i : PartialEq T⦄ → T → T → Bool
◌==◌ ⦃i⦄ x y = i.eq x y

instance abbrev pub nat_eq : PartialEq ℕ
nat_eq = record { eq_iff = nat_beq_iff; eq = nat_beq }

module _ {ℓ} {A : Type ℓ} ⦃e : PartialEq A⦄ where
  pub eq_of : (a b : A) → a == b ≡ true → a ≡ b
  eq_of a b h = (e.eq_iff a b).0 h

  pub eq_self : (a : A) → a == a ≡ true
  eq_self a = (e.eq_iff a a).1 refl

  pub eq_of_not_ne : (a b : A) → (a != b) ≡ false → a ≡ b
  eq_of_not_ne a b h = ground (arith, e.eq_iff a b)

  pub not_ne_of_eq : (a b : A) → a ≡ b → (a != b) ≡ false
  not_ne_of_eq a b h = ground (arith, e.eq_iff a b)

  abbrev pub list_beq : List A → List A → Bool
  list_beq [] [] = true
  list_beq (x ∷ xs) (y ∷ ys) = x == y && list_beq xs ys
  list_beq xs ys = false

  pub list_beq_iff : (xs ys : List A) → (list_beq xs ys ≡ true) ↔ (xs ≡ ys)
  list_beq_iff [] [] = ground arith
  list_beq_iff [] (y ∷ ys) = ground arith
  list_beq_iff (x ∷ xs) [] = ground arith
  list_beq_iff (x ∷ xs) (y ∷ ys) = ground (arith, e.eq_iff x y, list_beq_iff xs ys)

  abbrev pub option_beq : Option A → Option A → Bool
  option_beq none none = true
  option_beq (some x) (some y) = x == y
  option_beq x y = false

  pub option_beq_iff : (x y : Option A) → (option_beq x y ≡ true) ↔ (x ≡ y)
  option_beq_iff none none = ground arith
  option_beq_iff none (some y) = ground arith
  option_beq_iff (some x) none = ground arith
  option_beq_iff (some x) (some y) = ground (arith, e.eq_iff x y)

  -- `[T]::contains`
  abbrev pub contains : List A → A → Bool
  contains [] wanted = false
  contains (first ∷ rest) wanted = first == wanted || contains rest wanted

module _ {ℓ} {A : Type ℓ} ⦃e : PartialEq A⦄ where
  instance abbrev pub list_eq : PartialEq (List A)
  list_eq = record { eq_iff = list_beq_iff; eq = list_beq }

  instance abbrev pub option_eq : PartialEq (Option A)
  option_eq = record { eq_iff = option_beq_iff; eq = option_beq }
