-- ===== src/Common/Equality.antt =====
-- `===`, as an instance: a Boolean test that agrees with equality,
-- for numbers, texts and the enumerations of the program.
use Prim.Native.Nat.{ℕ, compare, Ordering}
use Prim.Native.String.{String}
use mathlib.Core.Path.{◌≡◌, refl}
use mathlib.Core.Logic.{◌↔◌, ◌≢◌}
use mathlib.Core.Bool.{Bool, true, false}
use native.Mathlib.Omega.{arith}
use text.Mathlib.Text.{◌==◌ as text_test}
use text.Mathlib.TextEquality.{eq_iff}

pub record Comparable {ℓ} (A : Type ℓ) : Type ℓ where
  pub test : A → A → Bool
  pub agrees : (a b : A) → (test a b ≡ true) ↔ (a ≡ b)

infix 50 ◌==◌
abbrev pub ◌==◌ {ℓ} : {A : Type ℓ} ⦃e : Comparable A⦄ → A → A → Bool
◌==◌ ⦃e⦄ = e.test

abbrev nat_beq : ℕ → ℕ → Bool
nat_beq a b = elim (compare a b) [ Ordering.eq ↦ true | _ ↦ false ]

pub nat_beq_iff : (a b : ℕ) → (nat_beq a b ≡ true) ↔ (a ≡ b)
nat_beq_iff a b = ground arith

instance abbrev pub string_eq : Comparable String
string_eq = record { agrees = eq_iff; test = text_test }

instance abbrev pub nat_eq : Comparable ℕ
nat_eq = record { agrees = nat_beq_iff; test = nat_beq }

pub beq_self {ℓ} : {A : Type ℓ} ⦃e : Comparable A⦄ (a : A) → (a == a) ≡ true
beq_self ⦃e⦄ a = (e.agrees a a).1 refl

pub beq_ne {ℓ} : {A : Type ℓ} ⦃e : Comparable A⦄ {a b : A} → a ≢ b → (a == b) ≡ false
beq_ne ⦃e⦄ {a} {b} h = ground (arith, e.agrees a b)
