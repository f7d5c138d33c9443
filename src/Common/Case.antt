-- ===== src/Common/Case.antt =====
-- Upper case and back, for names of lower-case letters, digits and underscores.
use Prim.Native.Char.{Char, code}
use Prim.Native.Nat.{ℕ, zero, suc, ◌+◌, ◌-◌, ◌<◌}
use Prim.Native.String.{String}
use mathlib.Core.Path.{◌≡◌, refl, ap, ◌∙◌}
use mathlib.Core.Logic.{inl, inr}
use mathlib.Core.Bool.{Bool, true, false, not, ◌&&◌}
use mathlib.Core.List.{List, [], ◌∷◌}
use native.Mathlib.Omega.{arith}
use text.Mathlib.TextEquality.{Char-path, eq_iff}
use text.Mathlib.TextLemmas.{cons-append, nil-append}
use vcalm_status_service.Common.Tests.{leb, if◌then◌else◌, Bool-cases}
use vcalm_status_service.Common.Equality.{◌==◌, nat_eq, string_eq}
use vcalm_status_service.Common.Lists.{length}
use vcalm_status_service.Common.Text.{◌⧺◌, nth}
use vcalm_status_service.Common.Chars.{all_chars}
use vcalm_status_service.Common.Ascii.{lower_case, upper_case, letters, capitals}

-- The text is one character, with this code.
abbrev is_coded : ℕ → String → Bool
is_coded k String.[] = false
is_coded k (String.◌∷◌ c s) = code c == k && s == ""

-- The texts of the table are single characters, with codes from k on.
abbrev are_coded : ℕ → List String → Bool
are_coded k [] = true
are_coded k (s ∷ rest) = is_coded k s && are_coded (suc k) rest

is_coded_char :
    (k : ℕ) (s : String) → is_coded k s ≡ true → (c : Char) × (s ≡ String.◌∷◌ c "") × (code c ≡ k)
is_coded_char k String.[] h = cc
is_coded_char k (String.◌∷◌ c s) h =
    (c, ap (String.◌∷◌ c) (ground (arith, eq_iff s "")), ground (arith, eq_iff s ""))

nth_coded :
    (k n : ℕ) (table : List String)
    → are_coded k table ≡ true
    → n < length table
    → (c : Char) × (nth n table ≡ String.◌∷◌ c "") × (code c ≡ k + n)
nth_coded k n [] coded h = absurd (omega arith)
nth_coded k zero (s ∷ rest) coded h =
    let (c, e, at) = is_coded_char k s (ground arith) in (c, e, omega (arith, at))
nth_coded k (suc n) (s ∷ rest) coded h =
    let (c, e, at) = nth_coded (suc k) n rest (ground arith) (omega arith) in
    (c, e, omega (arith, at))

-- The character at a code's place in a table stands at the front.
nth_coded-append :
    (k n : ℕ) (table : List String) (rest : String)
    → are_coded k table ≡ true
    → n < length table
    → (c : Char) × (nth n table ⧺ rest ≡ String.◌∷◌ c rest) × (code c ≡ k + n)
nth_coded-append k n table rest coded h =
    let (c, e, at) = nth_coded k n table coded h in
    (c, ap (λ s. s ⧺ rest) e ∙ cons-append c "" rest ∙ ap (String.◌∷◌ c) (nil-append rest), at)

abbrev pub is_lower : ℕ → Bool
is_lower c = leb b'a' c && leb c b'z'

abbrev pub is_capital : ℕ → Bool
is_capital c = leb b'A' c && leb c b'Z'

upper_case_letter :
    (c : Char) (s : String)
    → is_lower (code c) ≡ true
    → (d : Char) × (upper_case (String.◌∷◌ c s) ≡ String.◌∷◌ d (upper_case s))
      × (code d ≡ code c - 32)
upper_case_letter c s h =
    let (d, e, at) =
      nth_coded-append b'A' (code c - b'a') capitals (upper_case s) refl (ground arith) in
    (d, rw h e, ground (arith, at))

lower_case_letter :
    (d : Char) (s : String)
    → is_capital (code d) ≡ true
    → (c : Char) × (lower_case (String.◌∷◌ d s) ≡ String.◌∷◌ c (lower_case s))
      × (code c ≡ code d + 32)
lower_case_letter d s h =
    let (c, e, at) =
      nth_coded-append b'a' (code d - b'A') letters (lower_case s) refl (ground arith) in
    (c, rw h e, ground (arith, at))

-- No capital letters.
abbrev pub is_uncapital : String → Bool
is_uncapital String.[] = true
is_uncapital (String.◌∷◌ c s) = not (is_capital (code c)) && is_uncapital s

pub lower_case-upper_case : (s : String) → is_uncapital s ≡ true → lower_case (upper_case s) ≡ s
lower_case-upper_case String.[] h = refl
lower_case-upper_case (String.◌∷◌ c s) h = elim (Bool-cases (is_lower (code c))) [
  | inl low ↦
      let (d, up, at_d) = upper_case_letter c s low in
      let (c', down, at_c) = lower_case_letter d (upper_case s) (ground (arith, at_d)) in
      ap lower_case up
      ∙ down
      ∙ ap (λ x. String.◌∷◌ x (lower_case (upper_case s)))
          (Char-path c' c (ground (arith, at_c, at_d)))
      ∙ ap (String.◌∷◌ c) (lower_case-upper_case s (ground arith))
  | inr other ↦
      let kept : is_capital (code c) ≡ false = ground arith in
      rw other (rw kept (ap (String.◌∷◌ c) (lower_case-upper_case s (ground arith))))
]

-- What the characters of the text in upper case are like.
pub all_chars-upper_case :
    (p q : ℕ → Bool) (s : String)
    → ((c : ℕ) → p c ≡ true → (if is_lower c then q (c - 32) else q c) ≡ true)
    → all_chars p s ≡ true
    → all_chars q (upper_case s) ≡ true
all_chars-upper_case p q String.[] h a = refl
all_chars-upper_case p q (String.◌∷◌ c s) h a = elim (Bool-cases (is_lower (code c))) [
  | inl low ↦
      let (d, up, at_d) = upper_case_letter c s low in
      let good : q (code d) ≡ true = rw at_d (rw low at (h (code c) (ground arith))) in
      ap (all_chars q) up ∙ rw (good, all_chars-upper_case p q s h (ground arith)) refl
  | inr other ↦
      let good : q (code c) ≡ true = rw other at (h (code c) (ground arith)) in
      rw (other, good, all_chars-upper_case p q s h (ground arith)) refl
]
