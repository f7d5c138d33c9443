-- ===== src/Provisioning/Entries.antt =====
-- A block of variables whose names share a suffix, and what is looked up in it.
use text.Mathlib.TextLemmas.{append_cancel_right, append_assoc, append-eq-nil_iff}
use vcalm_status_service.Common.{
  ℕ, String, ◌≡◌, ◌≢◌, refl, ap, ◌∙◌, Bool, true, false, not, ◌&&◌, ◌||◌, Option, none, some, [],
  ◌∷◌, map, ◌==◌, nat_eq, string_eq, is_some, leb, contains, eq_iff, beq_ne, beq_self, Bool-cases,
  inl, inr,
}
use vcalm_status_service.Common.Dict
use vcalm_status_service.Common.Text.{◌⧺◌, decimal}
use vcalm_status_service.Common.Chars.{all_chars, all_chars-append}
use vcalm_status_service.Common.Prefix.{strip_prefix, join}
use vcalm_status_service.Tenants.Env.{Env, issuer_key, at, unless_blank}
use vcalm_status_service.Provisioning.Files.{is_break}

-- `NAME=value`
abbrev pub line_of : String × String → String
line_of (k, v) = k ⧺ "=" ⧺ v

-- What a name in an env file is made of, and a value that needs no quotes.
abbrev pub is_key_char : ℕ → Bool
is_key_char c = leb b'A' c && leb c b'Z' || leb b'0' c && leb c b'9' || c == b'_'

abbrev pub is_plain : ℕ → Bool
is_plain c =
    leb 33 c && leb c 126 && not (contains c (b'"' ∷ b'#' ∷ b'$' ∷ b'\'' ∷ b'\\' ∷ b'`' ∷ []))

-- Plain values under different names.
abbrev pub IsLoadable : Env → Type 0
IsLoadable [] = Unit
IsLoadable ((k, v) ∷ es) =
    (all_chars is_key_char k ≡ true)
    × (k ≢ "")
    × (all_chars is_plain v ≡ true)
    × (Dict.get k es ≡ none)
    × IsLoadable es

-- What loads an env file into the environment. A comment and a blank line in front make no
-- difference; a comment, and lines of names with plain values, are loaded as these names and values.
pub record Loader : Type 0 where
  pub load : String → Env
  pub load_comment :
      (comment rest : String)
      → is_some (strip_prefix "#" comment) ≡ true
      → all_chars (λ c. not (is_break c)) comment ≡ true
      → load (comment ⧺ "\n" ⧺ rest) ≡ load rest
  pub load_blank : (rest : String) → load ("\n" ⧺ rest) ≡ load rest
  pub load_lines :
      (comment : String) (es : Env)
      → is_some (strip_prefix "#" comment) ≡ true
      → all_chars (λ c. not (is_break c)) comment ≡ true
      → IsLoadable es
      → load (join "\n" (comment ∷ map line_of es) ⧺ "\n") ≡ es

abbrev pub suffixed : String → Env → Env
suffixed x [] = []
suffixed x ((p, v) ∷ ps) = (p ⧺ x, v) ∷ suffixed x ps

get_other :
    (p q x v : String) (ps : Env)
    → q ≢ p
    → Dict.get (p ⧺ x) (suffixed x ps) ≡ Dict.get p ps
    → Dict.get (p ⧺ x) (suffixed x ((q, v) ∷ ps)) ≡ Dict.get p ((q, v) ∷ ps)
get_other p q x v ps h e = rw (beq_ne (λ k. h (append_cancel_right q p x k)), beq_ne h) e

pub get-suffixed : (p x : String) (ps : Env) → Dict.get (p ⧺ x) (suffixed x ps) ≡ Dict.get p ps
get-suffixed p x [] = refl
get-suffixed p x ((q, v) ∷ ps) = elim (Bool-cases (q == p)) [
  | inl same ↦ let e : q ≡ p = (eq_iff q p).0 same in rw (e, beq_self (p ⧺ x), beq_self p) refl
  | inr other ↦
      get_other p q x v ps (λ e. cc (beq_self q, ap (λ r. q == r) e, other)) (get-suffixed p x ps)
]

-- A variable of an issuer instance, by the front of its name.
abbrev pub issuer_prefix : ℕ → String → String
issuer_prefix n field = "TENANT_ISSUER_" ⧺ decimal n ⧺ "_" ⧺ field ⧺ "_"

issuer_key_lem : (n : ℕ) (field x : String) → issuer_key n field x ≡ issuer_prefix n field ⧺ x
issuer_key_lem n field x = simp (append_assoc)

pub at-suffixed :
    (n : ℕ) (field x : String) (ps : Env)
    → at (suffixed x ps) n x field ≡ unless_blank (Dict.get (issuer_prefix n field) ps)
at-suffixed n field x ps =
    ap (λ k. unless_blank (Dict.get k (suffixed x ps))) (issuer_key_lem n field x)
    ∙ ap unless_blank (get-suffixed (issuer_prefix n field) x ps)

-- Names and values that make a block that is loaded, whatever suffix of name characters they get.
abbrev pub well_named : Env → Bool
well_named [] = true
well_named ((p, v) ∷ ps) =
    all_chars is_key_char p && not (p == "") && not (is_some (Dict.get p ps)) && well_named ps

abbrev pub ArePlain : Env → Type 0
ArePlain [] = Unit
ArePlain ((p, v) ∷ ps) = (all_chars is_plain v ≡ true) × ArePlain ps

append-ne-nil : (p x : String) → p ≢ "" → p ⧺ x ≢ ""
append-ne-nil p x h e = h (append-eq-nil_iff.0 e).0

pub suffixed-IsLoadable :
    (x : String) (ps : Env)
    → all_chars is_key_char x ≡ true
    → well_named ps ≡ true
    → ArePlain ps
    → IsLoadable (suffixed x ps)
suffixed-IsLoadable x [] named well plain = tt
suffixed-IsLoadable x ((p, v) ∷ ps) named well plain =
    let (most, later) = and_parts _ (well_named ps) well in
    let (both, new) = and_parts _ (not (is_some (Dict.get p ps))) most in
    let (front, nonempty) = and_parts (all_chars is_key_char p) (not (p == "")) both in
    (
      all_chars-append is_key_char p x ∙ rw (front, named) refl,
      append-ne-nil p x (λ e. cc nonempty),
      plain.0,
      get-suffixed p x ps ∙ none_of (Dict.get p ps) new,
      suffixed-IsLoadable x ps named later plain.1,
    )
  where
    and_parts : (a b : Bool) → (a && b) ≡ true → (a ≡ true) × (b ≡ true)
    and_parts true b h = (refl, h)
    and_parts false b h = cc

    none_of : (o : Option String) → not (is_some o) ≡ true → o ≡ none
    none_of none h = refl
    none_of (some s) h = cc

pub line_of-prefix : (p x v : String) → line_of (p ⧺ x, v) ≡ p ⧺ x ⧺ "=" ⧺ v
line_of-prefix p x v = append_assoc p x ("=" ⧺ v)
