-- ===== src/Common/Prefix.antt =====
-- Texts by their prefixes: `startsWith` with `slice`, `join`, and why names with different prefixes
-- are different.
use Prim.Native.Char.{code}
use Prim.Native.String.{String}
use mathlib.Core.Path.{◌≡◌, sym, ap, ◌∙◌}
use mathlib.Core.Logic.{◌≢◌, inl, inr}
use mathlib.Core.Bool.{Bool, true, false, not, ◌||◌}
use mathlib.Core.Option.{Option, none, some}
use mathlib.Core.List.{List, [], ◌∷◌}
use native.Mathlib.Omega.{arith}
use text.Mathlib.TextEquality.{Char-path}
use text.Mathlib.TextLemmas.{cons-append, nil-append}
use vcalm_status_service.Common.Tests.{if◌then◌else◌, Bool-cases}
use vcalm_status_service.Common.Equality.{◌==◌, nat_eq, beq_self, nat_beq_iff}
use vcalm_status_service.Common.Text.{◌⧺◌}

-- `s.startsWith(p) ? s.slice(p.length) : undefined`
abbrev pub strip_prefix : String → String → Option String
strip_prefix String.[] s = some s
strip_prefix (String.◌∷◌ c p) String.[] = none
strip_prefix (String.◌∷◌ c p) (String.◌∷◌ d s) = if code c == code d then strip_prefix p s else none

-- `parts.join(sep)`
abbrev pub join : String → List String → String
join sep [] = ""
join sep (x ∷ []) = x
join sep (x ∷ y ∷ rest) = x ⧺ sep ⧺ join sep (y ∷ rest)

-- The texts differ at a place that both have.
abbrev pub differ : String → String → Bool
differ String.[] q = false
differ (String.◌∷◌ c p) String.[] = false
differ (String.◌∷◌ c p) (String.◌∷◌ d q) = not (code c == code d) || differ p q

pub strip_prefix-append : (p s : String) → strip_prefix p (p ⧺ s) ≡ some s
strip_prefix-append String.[] s = ap some (nil-append s)
strip_prefix-append (String.◌∷◌ c p) s =
    rw (cons-append c p s, beq_self (code c)) (strip_prefix-append p s)

pub strip_prefix-differ : (p q s : String) → differ p q ≡ true → strip_prefix p (q ⧺ s) ≡ none
strip_prefix-differ String.[] q s h = cc
strip_prefix-differ (String.◌∷◌ c p) String.[] s h = cc
strip_prefix-differ (String.◌∷◌ c p) (String.◌∷◌ d q) s h =
    rw (cons-append d q s) (ground (arith, strip_prefix-differ p q s))

pub append_ne_of_differ : (p q s t : String) → differ p q ≡ true → p ⧺ s ≢ q ⧺ t
append_ne_of_differ p q s t h e =
    cc (sym (strip_prefix-append p s) ∙ ap (strip_prefix p) e ∙ strip_prefix-differ p q t h)

pub strip_prefix_sound : (p s : String) {t : String} → strip_prefix p s ≡ some t → s ≡ p ⧺ t
strip_prefix_sound String.[] s {t} h = sym (nil-append t ∙ cc)
strip_prefix_sound (String.◌∷◌ c p) String.[] h = cc
strip_prefix_sound (String.◌∷◌ c p) (String.◌∷◌ d s) {t} h = elim (Bool-cases (code c == code d)) [
  | inl same ↦
      ap (λ x. String.◌∷◌ x s) (Char-path d c (sym ((nat_beq_iff (code c) (code d)).0 same)))
      ∙ ap (String.◌∷◌ c) (strip_prefix_sound p s (rw same at h))
      ∙ sym (cons-append c p t)
  | inr other ↦ cc (rw other at h)
]
