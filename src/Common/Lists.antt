-- ===== src/Common/Lists.antt =====
-- Lists measured by native numbers, and tests of lists.
use Prim.Native.Nat.{ℕ, suc, ◌+◌}
use mathlib.Core.Path.{◌≡◌, sym}
use mathlib.Core.Logic.{◌⊎◌, inl, inr}
use mathlib.Core.Bool.{Bool, true, false, ◌||◌}
use mathlib.Core.Option.{Option, none, some}
use mathlib.Core.List.{List, [], ◌∷◌, ◌++◌}
use native.Mathlib.Omega.{arith}
use vcalm_status_service.Common.Tests.{if◌then◌else◌, Bool-cases}
use vcalm_status_service.Common.Equality.{Comparable, ◌==◌}

module _ {ℓ} {A : Type ℓ} where
  abbrev pub length : List A → ℕ
  length [] = 0
  length (x ∷ xs) = suc (length xs)

  -- `xs.find(p)`
  abbrev pub find : (A → Bool) → List A → Option A
  find p [] = none
  find p (x ∷ xs) = if p x then some x else find p xs

  -- `xs.filter(p)`
  abbrev pub filter : (A → Bool) → List A → List A
  filter p [] = []
  filter p (x ∷ xs) = let rest = filter p xs in if p x then x ∷ rest else rest

  -- `xs.some(p)`
  abbrev pub any : (A → Bool) → List A → Bool
  any p [] = false
  any p (x ∷ xs) = p x || any p xs

  pub length-append : (xs ys : List A) → length (xs ++ ys) ≡ length xs + length ys
  length-append [] ys = omega arith
  length-append (x ∷ xs) ys = omega (arith, length-append xs ys)

  pub find-holds : (p : A → Bool) (xs : List A) {a : A} → find p xs ≡ some a → p a ≡ true
  find-holds p [] h = cc
  find-holds p (x ∷ xs) {a} h = ground (arith, find-holds p xs {a = a})

module _ {ℓ} {A : Type ℓ} ⦃e : Comparable A⦄ where
  -- `xs.includes(a)`, and `s.has(a)` of a `Set`
  abbrev pub contains : A → List A → Bool
  contains a [] = false
  contains a (x ∷ xs) = x == a || contains a xs

  -- `s.add(a)` of a `Set`, which keeps the order of insertion
  unfoldable pub add : A → List A → List A
  add a xs = if contains a xs then xs else xs ++ a ∷ []

  pub contains-append :
      (a b : A) (xs : List A) → contains b (xs ++ a ∷ []) ≡ (contains b xs || a == b)
  contains-append a b [] = ground arith
  contains-append a b (x ∷ xs) = ground (arith, contains-append a b xs)

  pub contains-add : (a b : A) (xs : List A) → contains b (add a xs) ≡ (a == b || contains b xs)
  unfolding add
  contains-add a b xs = ground (arith, contains-append a b xs, e.agrees a b)

  pub length-add : (a : A) (xs : List A) → contains a xs ≡ false → length (add a xs) ≡ length xs + 1
  unfolding add
  length-add a xs h = ground (arith, length-append xs (a ∷ []))

module _ {ℓ κ} {A : Type ℓ} where
  abbrev pub All : (A → Type κ) → List A → Type κ
  All P [] = Unit
  All P (x ∷ xs) = P x × All P xs

-- The value stands in the list.
abbrev pub Member : {A : Type 0} → A → List A → Type 0
Member a [] = ⊥
Member a (x ∷ xs) = (x ≡ a) ⊎ Member a xs

pub any-Member :
    {A : Type 0} (p : A → Bool) (xs : List A) {a : A} → any p xs ≡ false → Member a xs → p a ≡ false
any-Member p [] h m = elim m [ ]
any-Member p (x ∷ xs) h (inl same) = rw (sym same) (ground arith)
any-Member p (x ∷ xs) h (inr m) = any-Member p xs (ground arith) m

pub Member_of_contains :
    {A : Type 0} ⦃e : Comparable A⦄ (a : A) (xs : List A) → contains a xs ≡ true → Member a xs
Member_of_contains a [] h = cc
Member_of_contains ⦃e⦄ a (x ∷ xs) h = elim (Bool-cases (x == a)) [
  | inl same ↦ inl ((e.agrees x a).0 same)
  | inr other ↦ inr (Member_of_contains a xs (rw other at h))
]
