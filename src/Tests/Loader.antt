-- ===== src/Tests/Loader.antt =====
-- A loader of env files: lines of names and values, and comments.
use text.Mathlib.TextLemmas.{append_assoc, cons-append, nil-append}
use Prim.Native.Char.{Char, code}
use vcalm_status_service.Common.{
  sym, ℕ, String, ◌≡◌, ◌≢◌, refl, ap, ◌∙◌, Bool, true, false, not, ◌||◌, Option, none, some, List,
  [], ◌∷◌, ◌++◌, map, arith, ◌==◌, string_eq, nat_eq, beq_ne, if◌then◌else◌, is_some,
}
use vcalm_status_service.Common.Text.{◌⧺◌}
use vcalm_status_service.Common.Ascii.{cut, split}
use vcalm_status_service.Common.Prefix.{strip_prefix, join}
use vcalm_status_service.Common.Chars.{
  all_chars, all_chars_mono, all_chars-append, lacks, cut-append, split-append,
}
use vcalm_status_service.Tenants.Env.{Env}
use vcalm_status_service.Provisioning.Files.{is_break}
use vcalm_status_service.Provisioning.Entries.{Loader, IsLoadable, line_of, is_key_char, is_plain}

abbrev with_value : String × Option String → Env → Env
with_value (k, none) rest = rest
with_value (k, some v) rest = (k, v) ∷ rest

abbrev entry : String → Env → Env
entry line rest =
    if line == "" || is_some (strip_prefix "#" line) then rest else with_value (cut b'=' line) rest

abbrev entries : List String → Env
entries [] = []
entries (line ∷ lines) = entry line (entries lines)

abbrev load : String → Env
load text = entries (split b'\n' text)

-- Lines, each with its end.
abbrev ended : List String → String
ended [] = ""
ended (l ∷ ls) = l ⧺ String.◌∷◌ "\n" (ended ls)

break_append : (s : String) → "\n" ⧺ s ≡ String.◌∷◌ "\n" s
break_append s = cons-append "\n" "" s ∙ ap (String.◌∷◌ "\n") (nil-append s)

join-ended : (l : String) (ls : List String) → join "\n" (l ∷ ls) ⧺ "\n" ≡ ended (l ∷ ls)
join-ended l [] = refl
join-ended l (k ∷ ls) =
    append_assoc l ("\n" ⧺ join "\n" (k ∷ ls)) "\n"
    ∙ ap (λ s. l ⧺ s)
        (append_assoc "\n" (join "\n" (k ∷ ls)) "\n"
          ∙ break_append _
          ∙ ap (String.◌∷◌ "\n") (join-ended k ls))

abbrev OneLine : List String → Type 0
OneLine [] = Unit
OneLine (l ∷ ls) = (all_chars (lacks b'\n') l ≡ true) × OneLine ls

split-ended : (ls : List String) → OneLine ls → split b'\n' (ended ls) ≡ ls ++ "" ∷ []
split-ended [] o = refl
split-ended (l ∷ ls) o = split-append "\n" l (ended ls) o.0 ∙ ap (λ r. l ∷ r) (split-ended ls o.1)

no_break : (c : ℕ) → not (is_break c) ≡ true → lacks b'\n' c ≡ true
no_break c h = ground arith

key_no_break : (c : ℕ) → is_key_char c ≡ true → lacks b'\n' c ≡ true
key_no_break c h = ground arith

key_no_equals : (c : ℕ) → is_key_char c ≡ true → lacks b'=' c ≡ true
key_no_equals c h = ground arith

plain_no_break : (c : ℕ) → is_plain c ≡ true → lacks b'\n' c ≡ true
plain_no_break c h = ground arith

equals_append : (s : String) → "=" ⧺ s ≡ String.◌∷◌ "=" s
equals_append s = cons-append "=" "" s ∙ ap (String.◌∷◌ "=") (nil-append s)

lines-OneLine : (es : Env) → IsLoadable es → OneLine (map line_of es)
lines-OneLine [] h = tt
lines-OneLine ((k, v) ∷ es) (key, _, plain, _, rest) = (
  all_chars-append (lacks b'\n') k ("=" ⧺ v)
      ∙ rw
          (
            all_chars_mono is_key_char (lacks b'\n') k key_no_break key,
            ap (all_chars (lacks b'\n')) (equals_append v),
            all_chars_mono is_plain (lacks b'\n') v plain_no_break plain,
          )
          refl,
  lines-OneLine es rest,
)

head_not_hash : (c : ℕ) → is_key_char c ≡ true → (b'#' == c) ≡ false
head_not_hash c h = ground arith

nonempty : (c : Char) (s : String) → String.◌∷◌ c s ≢ ""
nonempty c s e = cc e

skipped_not :
    (k v : String)
    → all_chars is_key_char k ≡ true
    → k ≢ ""
    → (line_of (k, v) == "" || is_some (strip_prefix "#" (line_of (k, v)))) ≡ false
skipped_not String.[] v key ne = absurd (ne refl)
skipped_not (String.◌∷◌ c k) v key ne =
    let head : is_key_char (code c) ≡ true = ground arith in
    rw (cons-append c k ("=" ⧺ v))
      (rw (beq_ne (nonempty c (k ⧺ ("=" ⧺ v))), head_not_hash (code c) head) refl)

cut-line : (k v : String) → all_chars is_key_char k ≡ true → cut b'=' (line_of (k, v)) ≡ (k, some v)
cut-line k v key =
    ap (λ s. cut b'=' (k ⧺ s)) (equals_append v)
    ∙ cut-append "=" k v (all_chars_mono is_key_char (lacks b'=') k key_no_equals key)

entry-line :
    (k v : String) (rest : Env)
    → all_chars is_key_char k ≡ true
    → k ≢ ""
    → entry (line_of (k, v)) rest ≡ (k, v) ∷ rest
entry-line k v rest key ne =
    ap (λ b. if b then rest else with_value (cut b'=' (line_of (k, v))) rest)
      (skipped_not k v key ne)
    ∙ ap (λ p. with_value p rest) (cut-line k v key)

entries-lines : (es : Env) → IsLoadable es → entries (map line_of es ++ "" ∷ []) ≡ es
entries-lines [] h = refl
entries-lines ((k, v) ∷ es) (key, ne, _, _, rest) =
    entry-line k v (entries (map line_of es ++ "" ∷ [])) key ne
    ∙ ap (λ r. (k, v) ∷ r) (entries-lines es rest)

entry-comment :
    (l : String) (rest : Env) → is_some (strip_prefix "#" l) ≡ true → entry l rest ≡ rest
entry-comment l rest h = rw h (either (l == ""))
  where
    either : (b : Bool) → (if b || true then rest else with_value (cut b'=' l) rest) ≡ rest
    either true = refl
    either false = refl

pub load_lines :
    (comment : String) (es : Env)
    → is_some (strip_prefix "#" comment) ≡ true
    → all_chars (λ c. not (is_break c)) comment ≡ true
    → IsLoadable es
    → load (join "\n" (comment ∷ map line_of es) ⧺ "\n") ≡ es
load_lines comment es hash line loadable =
    ap load (join-ended comment (map line_of es))
    ∙ ap entries (
        split-ended (comment ∷ map line_of es) (
          all_chars_mono (λ c. not (is_break c)) (lacks b'\n') comment no_break line,
          lines-OneLine es loadable,
        ))
    ∙ entry-comment comment (entries (map line_of es ++ "" ∷ [])) hash
    ∙ entries-lines es loadable

line_apart :
    (l rest : String)
    → all_chars (lacks b'\n') l ≡ true
    → load (l ⧺ "\n" ⧺ rest) ≡ entry l (load rest)
line_apart l rest one =
    ap (λ s. load (l ⧺ s)) (break_append rest) ∙ ap entries (split-append "\n" l rest one)

pub load_comment :
    (comment rest : String)
    → is_some (strip_prefix "#" comment) ≡ true
    → all_chars (λ c. not (is_break c)) comment ≡ true
    → load (comment ⧺ "\n" ⧺ rest) ≡ load rest
load_comment comment rest hash line =
    line_apart comment rest
      (all_chars_mono (λ c. not (is_break c)) (lacks b'\n') comment no_break line)
    ∙ entry-comment comment (load rest) hash

pub load_blank : (rest : String) → load ("\n" ⧺ rest) ≡ load rest
load_blank rest = ap load (sym (nil-append ("\n" ⧺ rest))) ∙ line_apart "" rest refl

abbrev pub loader : Loader
loader = record {
  load = load;
  load_comment = load_comment;
  load_blank = load_blank;
  load_lines = load_lines;
}
