-- ===== src/Common/Chars.antt =====
-- Texts all of whose characters have a property: they are trimmed, or are one part of a split.
use Prim.Native.Char.{Char, code}
use Prim.Native.Nat.{ℕ}
use Prim.Native.String.{String}
use mathlib.Core.Path.{◌≡◌, refl, ap, ◌∙◌}
use mathlib.Core.Logic.{inl, inr}
use mathlib.Core.Bool.{Bool, true, false, not, ◌&&◌}
use mathlib.Core.Option.{some}
use mathlib.Core.List.{[], ◌∷◌}
use native.Mathlib.Omega.{arith}
use text.Mathlib.TextLemmas.{cons-append, nil-append}
use vcalm_status_service.Common.Tests.{if◌then◌else◌, Bool-cases}
use vcalm_status_service.Common.Equality.{◌==◌, nat_eq, string_eq, beq_self}
use vcalm_status_service.Common.Text.{◌⧺◌}
use vcalm_status_service.Common.Ascii.{is_space, trim, trim_start, trim_end, cut, split}

abbrev pub all_chars : (ℕ → Bool) → String → Bool
all_chars p String.[] = true
all_chars p (String.◌∷◌ c s) = p (code c) && all_chars p s

pub all_chars-append :
    (p : ℕ → Bool) (a b : String) → all_chars p (a ⧺ b) ≡ (all_chars p a && all_chars p b)
all_chars-append p String.[] b = rw (nil-append b) refl
all_chars-append p (String.◌∷◌ c a) b =
    rw (cons-append c a b) (ground (arith, all_chars-append p a b))

pub all_chars_mono :
    (p q : ℕ → Bool) (s : String)
    → ((c : ℕ) → p c ≡ true → q c ≡ true)
    → all_chars p s ≡ true
    → all_chars q s ≡ true
all_chars_mono p q String.[] h a = refl
all_chars_mono p q (String.◌∷◌ c s) h a = ground (arith, h (code c), all_chars_mono p q s h)

pub trim_start_lem : (s : String) → all_chars (λ c. not (is_space c)) s ≡ true → trim_start s ≡ s
trim_start_lem String.[] h = refl
trim_start_lem (String.◌∷◌ c s) h = elim (Bool-cases (is_space (code c))) [
  | inl space ↦ cc (rw space at h)
  | inr other ↦ rw other refl
]

pub trim_end_lem : (s : String) → all_chars (λ c. not (is_space c)) s ≡ true → trim_end s ≡ s
trim_end_lem String.[] h = refl
trim_end_lem (String.◌∷◌ c s) h = elim (Bool-cases (is_space (code c))) [
  | inl space ↦ cc (rw space at h)
  | inr other ↦
      rw other (by_rest (trim_end s == "") ∙ ap (String.◌∷◌ c) (trim_end_lem s (rw other at h)))
]
  where
    by_rest :
        (b : Bool)
        → (if b && false then "" else String.◌∷◌ c (trim_end s)) ≡ String.◌∷◌ c (trim_end s)
    by_rest true = refl
    by_rest false = refl

-- A text with no white space is trimmed.
pub trim_lem : (s : String) → all_chars (λ c. not (is_space c)) s ≡ true → trim s ≡ s
unfolding trim
trim_lem s h = ap trim_end (trim_start_lem s h) ∙ trim_end_lem s h

-- The text without the separator.
abbrev pub lacks : ℕ → ℕ → Bool
lacks sep c = not (c == sep)

-- The first separator ends the front.
pub cut-append :
    (c : Char) (s rest : String)
    → all_chars (lacks (code c)) s ≡ true
    → cut (code c) (s ⧺ String.◌∷◌ c rest) ≡ (s, some rest)
cut-append c String.[] rest h = rw (nil-append (String.◌∷◌ c rest), beq_self (code c)) refl
cut-append c (String.◌∷◌ d s) rest h = elim (Bool-cases (code d == code c)) [
  | inl same ↦ cc (rw same at h)
  | inr other ↦
      rw (cons-append d s (String.◌∷◌ c rest), cut-append c s rest (rw other at h), other) refl
]

-- A text without the separator is its only part.
pub split_lem : (sep : ℕ) (s : String) → all_chars (lacks sep) s ≡ true → split sep s ≡ s ∷ []
split_lem sep String.[] h = refl
split_lem sep (String.◌∷◌ d s) h = elim (Bool-cases (code d == sep)) [
  | inl same ↦ cc (rw same at h)
  | inr other ↦ rw (split_lem sep s (rw other at h), other) refl
]

-- Such a text before a separator is the first part.
pub split-append :
    (c : Char) (s rest : String)
    → all_chars (lacks (code c)) s ≡ true
    → split (code c) (s ⧺ String.◌∷◌ c rest) ≡ s ∷ split (code c) rest
split-append c String.[] rest h = rw (nil-append (String.◌∷◌ c rest), beq_self (code c)) refl
split-append c (String.◌∷◌ d s) rest h = elim (Bool-cases (code d == code c)) [
  | inl same ↦ cc (rw same at h)
  | inr other ↦
      rw (cons-append d s (String.◌∷◌ c rest), split-append c s rest (rw other at h), other) refl
]
