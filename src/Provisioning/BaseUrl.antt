-- ===== src/Provisioning/BaseUrl.antt =====
-- What `baseUrlFromEnvFile` of service/src/cli/provisioning.ts finds.
use text.Mathlib.TextLemmas.{cons-append, nil-append}
use Prim.Native.Char.{code}
use vcalm_status_service.Common.{
  ℕ, String, ◌≡◌, ◌≢◌, refl, sym, ap, ◌∙◌, Bool, true, false, not, ◌&&◌, none, some, arith, ◌==◌,
  string_eq, nat_eq, if◌then◌else◌, Bool-cases, inl, inr, beq_ne,
}
use vcalm_status_service.Common.Text.{◌⧺◌}
use vcalm_status_service.Common.Ascii.{trim_start, trim_end, is_space}
use vcalm_status_service.Common.Prefix.{strip_prefix, strip_prefix-append}
use vcalm_status_service.Common.Chars.{all_chars, all_chars_mono, trim_end_lem}
use vcalm_status_service.Provisioning.Files.{
  is_break, first_of, last_blank, at_later_line, after_equals, after_name, line, value_of,
  value_after, unquoted, is_quote, without_first_quote, without_last_quote, base_url_from_env_file,
}
use vcalm_status_service.Provisioning.Entries.{is_plain}
use vcalm_status_service.Provisioning.Words.{IsWord, plain_no_space}

trim_start-append :
    (blank s : String) → all_chars is_space blank ≡ true → trim_start (blank ⧺ s) ≡ trim_start s
trim_start-append String.[] s h = ap trim_start (nil-append s)
trim_start-append (String.◌∷◌ c blank) s h = elim (Bool-cases (is_space (code c))) [
  | inl space ↦ rw (cons-append c blank s) (rw space (trim_start-append blank s (rw space at h)))
  | inr other ↦ cc (rw other at h)
]

plain_no_break : (c : ℕ) → is_plain c ≡ true → not (is_break c) ≡ true
plain_no_break c h = ground arith

plain_no_quote : (c : ℕ) → is_plain c ≡ true → not (is_quote c) ≡ true
plain_no_quote c h = ground arith

line-append :
    (s rest : String)
    → all_chars (λ c. not (is_break c)) s ≡ true
    → line (s ⧺ String.◌∷◌ "\n" rest) ≡ s
line-append String.[] rest h = ap line (nil-append (String.◌∷◌ "\n" rest))
line-append (String.◌∷◌ c s) rest h = elim (Bool-cases (is_break (code c))) [
  | inl break ↦ cc (rw break at h)
  | inr other ↦
      rw (cons-append c s (String.◌∷◌ "\n" rest))
        (rw other (ap (String.◌∷◌ c) (line-append s rest (rw other at h))))
]

unquoted_last : (s : String) → all_chars (λ c. not (is_quote c)) s ≡ true → without_last_quote s ≡ s
unquoted_last String.[] h = refl
unquoted_last (String.◌∷◌ c s) h = elim (Bool-cases (is_quote (code c))) [
  | inl quote ↦ cc (rw quote at h)
  | inr other ↦ rw other (by_end (s == "") ∙ ap (String.◌∷◌ c) (unquoted_last s (rw other at h)))
]
  where
    by_end :
        (b : Bool)
        → (if b && false then "" else String.◌∷◌ c (without_last_quote s))
          ≡ String.◌∷◌ c (without_last_quote s)
    by_end true = refl
    by_end false = refl

first_kept : (s : String) → all_chars (λ c. not (is_quote c)) s ≡ true → without_first_quote s ≡ s
first_kept String.[] h = refl
first_kept (String.◌∷◌ c s) h = elim (Bool-cases (is_quote (code c))) [
  | inl quote ↦ cc (rw quote at h)
  | inr other ↦ rw other refl
]

unquoted-word : (s : String) → IsWord s → unquoted (some s) ≡ some s
unquoted-word s w =
    let free = all_chars_mono is_plain (λ c. not (is_quote c)) s plain_no_quote w.0 in
    let same : without_last_quote (without_first_quote s) ≡ s =
      ap without_last_quote (first_kept s free) ∙ unquoted_last s free in
    ap (λ v. if v == "" then none else some v) same ∙ rw (beq_ne w.1) refl

word_first : (s rest : String) → IsWord s → trim_start (s ⧺ rest) ≡ s ⧺ rest
word_first String.[] rest w = absurd (w.1 refl)
word_first (String.◌∷◌ c s) rest w =
    let plain : is_plain (code c) ≡ true = ground arith in
    let dark : is_space (code c) ≡ false = ground (arith, plain_no_space (code c)) in
    ap trim_start (cons-append c s rest) ∙ rw dark (sym (cons-append c s rest))

append_nonempty : (s rest : String) → IsWord s → s ⧺ rest ≢ ""
append_nonempty String.[] rest w e = w.1 refl
append_nonempty (String.◌∷◌ c s) rest w e = cc (sym (cons-append c s rest) ∙ e)

module _ (blank url rest : String) (space : all_chars is_space blank ≡ true)
    (word : IsWord url) where
  value_found : value_of (blank ⧺ url ⧺ String.◌∷◌ "\n" rest) ≡ some url
  value_found =
      let tail = url ⧺ String.◌∷◌ "\n" rest in
      let front : trim_start (blank ⧺ tail) ≡ tail =
        trim_start-append blank tail space ∙ word_first url (String.◌∷◌ "\n" rest) word in
      ap (λ t. if t == "" then last_blank (blank ⧺ tail) else some (trim_end (line t))) front
      ∙ ap (λ b. if b then last_blank (blank ⧺ tail) else some (trim_end (line tail)))
          (beq_ne (append_nonempty url (String.◌∷◌ "\n" rest) word))
      ∙ ap (λ t. some (trim_end t))
          (line-append url rest
            (all_chars_mono is_plain (λ c. not (is_break c)) url plain_no_break word.0))
      ∙ ap some (
          trim_end_lem url
            (all_chars_mono is_plain (λ c. not (is_space c)) url plain_no_space word.0))

  name_found : (s : String) → after_name "PUBLIC_BASE_URL" ("PUBLIC_BASE_URL" ⧺ "=" ⧺ s) ≡ some s
  name_found s =
      ap (λ t. after_equals (strip_prefix "PUBLIC_BASE_URL" t)) (name_kept s)
      ∙ ap after_equals (strip_prefix-append "PUBLIC_BASE_URL" ("=" ⧺ s))
      ∙ ap (λ t. strip_prefix "=" (trim_start t)) (equals_append s)
    where
      equals_append : (u : String) → "=" ⧺ u ≡ String.◌∷◌ "=" u
      equals_append u = cons-append "=" "" u ∙ ap (String.◌∷◌ "=") (nil-append u)

      name_kept :
          (u : String) → trim_start ("PUBLIC_BASE_URL" ⧺ "=" ⧺ u) ≡ "PUBLIC_BASE_URL" ⧺ "=" ⧺ u
      name_kept u = rw (cons-append "P" "UBLIC_BASE_URL" ("=" ⧺ u)) refl

  -- In a file that begins with the name PUBLIC_BASE_URL and an equals sign, the first plain word
  -- behind it, if a line end follows the word, is taken for the base URL, whatever white space
  -- stands in between, line ends included.
  pub base_url_from_env_file-line :
      base_url_from_env_file ("PUBLIC_BASE_URL" ⧺ "=" ⧺ blank ⧺ url ⧺ String.◌∷◌ "\n" rest)
      ≡ some url
  unfolding base_url_from_env_file
  base_url_from_env_file-line =
      let value = blank ⧺ url ⧺ String.◌∷◌ "\n" rest in
      let text = "PUBLIC_BASE_URL" ⧺ "=" ⧺ value in
      ap
        (λ o.
          unquoted
            (first_of o (at_later_line (λ s. value_after (after_name "PUBLIC_BASE_URL" s)) text)))
        (ap value_after (name_found value) ∙ value_found)
      ∙ unquoted-word url word
