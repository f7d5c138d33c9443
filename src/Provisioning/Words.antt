-- ===== src/Provisioning/Words.antt =====
-- Values that a variable's reader takes as they are.
use text.Mathlib.TextLemmas.{cons-append, nil-append}
use vcalm_status_service.Common.{
  ℕ, String, ◌≡◌, ◌≢◌, refl, ap, ◌∙◌, true, not, some, List, [], ◌∷◌, map, arith, ◌==◌, nat_eq,
  string_eq, filter, beq_ne, All,
}
use vcalm_status_service.Common.Text.{◌⧺◌}
use vcalm_status_service.Common.Ascii.{is_space, trim, split}
use vcalm_status_service.Common.Chars.{
  all_chars, all_chars_mono, all_chars-append, trim_lem, lacks, split_lem, split-append,
}
use vcalm_status_service.Common.Prefix.{join}
use vcalm_status_service.Errors.{ok}
use vcalm_status_service.VcSigner.{
  Cryptosuite, cryptosuite_name, eddsa_rdfc_2022, ecdsa_rdfc_2019, ed25519_signature_2020,
}
use vcalm_status_service.Tenants.Env.{
  list, trimmed, unless_blank, unless_empty, truthy, parse_cryptosuite,
}
use vcalm_status_service.Provisioning.Entries.{is_plain}

-- A value that is not empty and needs no quotes.
abbrev pub IsWord : String → Type 0
IsWord s = (all_chars is_plain s ≡ true) × (s ≢ "")

-- One of a list: a word without a comma.
abbrev pub IsItem : String → Type 0
IsItem s = IsWord s × (all_chars (lacks b',') s ≡ true)

pub plain_no_space : (c : ℕ) → is_plain c ≡ true → not (is_space c) ≡ true
plain_no_space c h = ground arith

pub trim-plain : (s : String) → all_chars is_plain s ≡ true → trim s ≡ s
trim-plain s h = trim_lem s (all_chars_mono is_plain (λ c. not (is_space c)) s plain_no_space h)

pub trimmed-word : (s : String) → IsWord s → trimmed (some s) ≡ some s
trimmed-word s w = ap some (trim-plain s w.0)

pub unless_blank-word : (s : String) → IsWord s → unless_blank (some s) ≡ some s
unless_blank-word s w = ap unless_empty (trim-plain s w.0) ∙ rw (beq_ne w.1) refl

pub truthy-word : (s : String) → IsWord s → truthy (some s) ≡ some s
truthy-word s w = rw (beq_ne w.1) refl

pub cryptosuite-IsWord : (c : Cryptosuite) → IsWord (cryptosuite_name c)
cryptosuite-IsWord eddsa_rdfc_2022 = (refl, λ e. cc e)
cryptosuite-IsWord ecdsa_rdfc_2019 = (refl, λ e. cc e)
cryptosuite-IsWord ed25519_signature_2020 = (refl, λ e. cc e)

pub parse_cryptosuite-name :
    (c : Cryptosuite) → parse_cryptosuite (some (cryptosuite_name c)) ≡ ok c
unfolding parse_cryptosuite trim
parse_cryptosuite-name eddsa_rdfc_2022 = refl
parse_cryptosuite-name ecdsa_rdfc_2019 = refl
parse_cryptosuite-name ed25519_signature_2020 = refl

abbrev kept : List String → List String
kept = filter (λ entry. not (entry == ""))

kept_item :
    (s : String) (rest : List String)
    → IsItem s
    → kept (map trim (s ∷ rest)) ≡ s ∷ kept (map trim rest)
kept_item s rest i = rw (trim-plain s (i.0).0, beq_ne (i.0).1) refl

comma_append : (s : String) → "," ⧺ s ≡ String.◌∷◌ "," s
comma_append s = cons-append "," "" s ∙ ap (String.◌∷◌ ",") (nil-append s)

-- A list of items is read back from its text.
pub list-join :
    (d : String) (ds : List String) → All IsItem (d ∷ ds) → list (some (join "," (d ∷ ds))) ≡ d ∷ ds
list-join d [] items =
    ap (λ parts. kept (map trim parts)) (split_lem b',' d (items.0).1) ∙ kept_item d [] items.0
list-join d (e ∷ es) items =
    ap (λ text. kept (map trim (split b',' (d ⧺ text)))) (comma_append (join "," (e ∷ es)))
    ∙ ap (λ parts. kept (map trim parts)) (split-append "," d (join "," (e ∷ es)) (items.0).1)
    ∙ kept_item d (split b',' (join "," (e ∷ es))) items.0
    ∙ ap (λ rest. d ∷ rest) (list-join e es items.1)

-- The text of a list is plain.
pub join-plain :
    (d : String) (ds : List String)
    → All IsItem (d ∷ ds)
    → all_chars is_plain (join "," (d ∷ ds)) ≡ true
join-plain d [] items = ((items.0).0).0
join-plain d (e ∷ es) items =
    all_chars-append is_plain d ("," ⧺ join "," (e ∷ es))
    ∙ rw
        (
          ((items.0).0).0,
          all_chars-append is_plain "," (join "," (e ∷ es)),
          join-plain e es items.1,
        )
        refl
