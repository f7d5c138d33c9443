-- ===== src/Common/Decimal.antt =====
-- Decimal texts are read back: different numbers have different ones.
use Prim.Native.Char.{Char, code}
use Prim.Native.Nat.{ℕ, zero, suc, ◌+◌, ◌-◌, ◌*◌, ◌/◌, ◌<◌, ◌%◌}
use Prim.Native.String.{String}
use mathlib.Core.Path.{◌≡◌, refl, sym, ap, ◌∙◌, subst}
use mathlib.Core.Logic.{◌≢◌, inl, inr}
use mathlib.Core.Bool.{Bool, true, ◌&&◌}
use native.Mathlib.Omega.{arith}
use text.Mathlib.TextLemmas.{cons-append, nil-append, append_assoc}
use vcalm_status_service.Common.Tests.{ltb, leb, Bool-cases, ltb→lt, ltb→ge}
use vcalm_status_service.Common.Text.{◌⧺◌, decimal, decimal_from, digit}

abbrev pub all_digits : String → Bool
all_digits String.[] = true
all_digits (String.◌∷◌ c s) = leb b'0' (code c) && leb (code c) b'9' && all_digits s

-- `Number(raw)` of digits, read on from a value: exact up to the greatest safe integer, above which
-- it stays above.
abbrev pub value_from : ℕ → String → ℕ
value_from n String.[] = n
value_from n (String.◌∷◌ c s) = value_from (n * 10 + (code c - b'0')) s

digit_char : (d : ℕ) → d < 10 → (c : Char) × (digit d ≡ String.◌∷◌ c "") × (code c ≡ d + b'0')
unfolding digit
digit_char zero h = ("0", refl, refl)
digit_char (suc zero) h = ("1", refl, refl)
digit_char (suc (suc zero)) h = ("2", refl, refl)
digit_char (suc (suc (suc zero))) h = ("3", refl, refl)
digit_char (suc (suc (suc (suc zero)))) h = ("4", refl, refl)
digit_char (suc (suc (suc (suc (suc zero))))) h = ("5", refl, refl)
digit_char (suc (suc (suc (suc (suc (suc zero)))))) h = ("6", refl, refl)
digit_char (suc (suc (suc (suc (suc (suc (suc zero))))))) h = ("7", refl, refl)
digit_char (suc (suc (suc (suc (suc (suc (suc (suc zero)))))))) h = ("8", refl, refl)
digit_char (suc (suc (suc (suc (suc (suc (suc (suc (suc zero))))))))) h = ("9", refl, refl)
digit_char (suc (suc (suc (suc (suc (suc (suc (suc (suc (suc d)))))))))) h = absurd (omega arith)

-- A text of digits that is read, from 0 on, as n.
abbrev pub Reads : String → ℕ → Type 0
Reads s n =
    (rest : String)
    → (all_digits (s ⧺ rest) ≡ all_digits rest) × (value_from 0 (s ⧺ rest) ≡ value_from n rest)

digit-Reads_on :
    (d : ℕ)
    → d < 10
    → (n : ℕ) (rest : String)
    → (all_digits (digit d ⧺ rest) ≡ all_digits rest)
      × (value_from n (digit d ⧺ rest) ≡ value_from (n * 10 + d) rest)
digit-Reads_on d h n rest =
    let (c, same, value) = digit_char d h in
    let first : digit d ⧺ rest ≡ String.◌∷◌ c rest =
      ap (λ s. s ⧺ rest) same ∙ cons-append c "" rest ∙ ap (String.◌∷◌ c) (nil-append rest) in
    (
      ap all_digits first ∙ ground arith,
      ap (value_from n) first ∙ ap (λ k. value_from (n * 10 + k) rest) (omega (arith, value)),
    )

step-Reads :
    (front : String) (n d : ℕ) → d < 10 → Reads front n → Reads (front ⧺ digit d) (n * 10 + d)
step-Reads front n d h reads rest =
    let (all, value) = reads (digit d ⧺ rest) in
    let (all_d, value_d) = digit-Reads_on d h n rest in
    let same : (front ⧺ digit d) ⧺ rest ≡ front ⧺ (digit d ⧺ rest) =
      append_assoc front (digit d) rest in
    (ap all_digits same ∙ all ∙ all_d, ap (value_from 0) same ∙ value ∙ value_d)

pub decimal_from-Reads : (f n : ℕ) → n < f → Reads (decimal_from f n) n
unfolding decimal_from
decimal_from-Reads zero n h = absurd (omega arith)
decimal_from-Reads (suc f) n h = elim (Bool-cases (ltb n 10)) [
  | inl small ↦
      let from_zero : 0 * 10 + n ≡ n = omega arith in
      rw small (subst (Reads (digit n)) from_zero (digit-Reads_on n (ltb→lt n 10 small) 0))
  | inr large ↦ rw large (
      subst (Reads (decimal_from f (n / 10) ⧺ digit (n % 10))) (omega arith) (
        step-Reads (decimal_from f (n / 10)) (n / 10) (n % 10) (omega arith)
          (decimal_from-Reads f (n / 10) (omega (arith, ltb→ge n 10 large)))))
]

nonempty_digit : (d : ℕ) → d < 10 → digit d ≢ ""
nonempty_digit d h e = let (c, same, _) = digit_char d h in cc

nonempty_append : (a b : String) → b ≢ "" → a ⧺ b ≢ ""
nonempty_append String.[] b h e = h (sym (nil-append b) ∙ e)
nonempty_append (String.◌∷◌ c s) b h e = cc (sym (cons-append c s b) ∙ e)

pub decimal-nonempty : (n : ℕ) → decimal n ≢ ""
unfolding decimal decimal_from
decimal-nonempty n = elim (Bool-cases (ltb n 10)) [
  | inl small ↦ rw small (nonempty_digit n (ltb→lt n 10 small))
  | inr large ↦ rw large (
      nonempty_append (decimal_from n (n / 10)) (digit (n % 10))
        (nonempty_digit (n % 10) (omega arith)))
]

pub decimal_injective : (m n : ℕ) → decimal m ≡ decimal n → m ≡ n
unfolding decimal
decimal_injective m n h =
    let (_, value_m) = decimal_from-Reads (suc m) m (omega arith) "" in
    let (_, value_n) = decimal_from-Reads (suc n) n (omega arith) "" in
    sym value_m ∙ ap (λ s. value_from 0 (s ⧺ "")) h ∙ value_n
