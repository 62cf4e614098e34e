-- ===== src/Prelude/Tests.antt =====
-- Boolean tests on numbers, `if`, and splits that keep the equation.
use Prim.Native.Nat.{ℕ, compare, Ordering}
use mathlib.Core.Path.{◌≡◌, refl}
use mathlib.Core.Logic.{◌⊎◌, inl, inr}
use mathlib.Core.Bool.{Bool, true, false, ◌&&◌}
use mathlib.Core.Option.{Option, none, some}
use native.Mathlib.Omega.{arith}

abbrev pub ltb : ℕ → ℕ → Bool
ltb a b = elim (compare a b) [ Ordering.lt ↦ true | _ ↦ false ]

abbrev pub leb : ℕ → ℕ → Bool
leb a b = elim (compare a b) [ Ordering.gt ↦ false | _ ↦ true ]

abbrev pub nat_beq : ℕ → ℕ → Bool
nat_beq a b = elim (compare a b) [ Ordering.eq ↦ true | _ ↦ false ]

infix 1 if◌then◌else◌
abbrev pub if◌then◌else◌ {ℓ} : {A : Type ℓ} → Bool → A → A → A
if true then x else y = x
if false then x else y = y

pub Bool-cases : (b : Bool) → (b ≡ true) ⊎ (b ≡ false)
Bool-cases true = inl refl
Bool-cases false = inr refl

pub and-eq-true : (a b : Bool) → (a && b) ≡ true → (a ≡ true) × (b ≡ true)
and-eq-true a b h = ground arith

pub Option-cases {ℓ} : {A : Type ℓ} (o : Option A) → (o ≡ none) ⊎ ((a : A) × (o ≡ some a))
Option-cases none = inl refl
Option-cases (some a) = inr (a, refl)

-- Keys that can be compared, as the source's `Eq`.
pub record Keyed {ℓ} (K : Type ℓ) : Type ℓ where
  pub same : K → K → Bool
  pub same_to : (x y : K) → same x y ≡ true → x ≡ y
  pub same_self : (x : K) → same x x ≡ true

infix 50 ◌==◌
abbrev pub ◌==◌ {ℓ} : {K : Type ℓ} ⦃keyed : Keyed K⦄ → K → K → Bool
◌==◌ ⦃keyed⦄ x y = keyed.same x y

pub nat_beq_to : (x y : ℕ) → nat_beq x y ≡ true → x ≡ y
nat_beq_to x y h = ground arith

pub nat_beq_self : (x : ℕ) → nat_beq x x ≡ true
nat_beq_self x = ground arith

instance abbrev pub nat_eq : Keyed ℕ
nat_eq = record { same = nat_beq; same_to = nat_beq_to; same_self = nat_beq_self }

module _ {ℓ} {K : Type ℓ} ⦃keyed : Keyed K⦄ where
  pub beq_refl : (x : K) → (x == x) ≡ true
  beq_refl x = keyed.same_self x

  pub eq_of_beq : (x y : K) → (x == y) ≡ true → x ≡ y
  eq_of_beq x y = keyed.same_to x y
