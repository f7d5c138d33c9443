-- ===== src/VcSigner/Contexts.antt =====
-- `withRequiredContexts` of packages/vc-signer/src/credential.ts.
use mathlib.Core.List.{append_assoc, append-nil}
use vcalm_status_service.Common.{
  String, ◌≡◌, refl, sym, ap, ◌∙◌, true, List, [], ◌∷◌, ◌++◌, arith, string_eq, if◌then◌else◌,
  eq_refl, All, Bool-cases, inl, inr,
}
use vcalm_status_service.Errors.{ok}
use vcalm_status_service.VcSigner.{ContextEntry, url, terms, many, UnsignedCredential}
use vcalm_status_service.VcSigner.Credential.{
  context_entries, includes_url, merge_contexts, with_required_contexts, assert_credential_context,
  leads_with_base,
}

includes_url-append :
    (u : String) (xs ys : List ContextEntry)
    → includes_url u xs ≡ true
    → includes_url u (xs ++ ys) ≡ true
includes_url-append u [] ys h = cc
includes_url-append u (url c ∷ xs) ys h = ground (arith, includes_url-append u xs ys)
includes_url-append u (terms t ∷ xs) ys h = includes_url-append u xs ys h

includes_url-last : (u : String) (xs : List ContextEntry) → includes_url u (xs ++ url u ∷ []) ≡ true
includes_url-last u [] = rw (eq_refl u)
includes_url-last u (url c ∷ xs) = ground (arith, includes_url-last u xs)
includes_url-last u (terms t ∷ xs) = includes_url-last u xs

-- What one step of the loop adds.
abbrev step : String → List ContextEntry → List ContextEntry
step c merged = if includes_url c merged then merged else merged ++ url c ∷ []

step-prefix :
    (c : String) (merged : List ContextEntry)
    → (added : List ContextEntry) × (step c merged ≡ merged ++ added)
step-prefix c merged = elim (Bool-cases (includes_url c merged)) [
  | inl there ↦ ([], rw there (sym (append-nil merged)))
  | inr missing ↦ (url c ∷ [], rw missing)
]

step-includes : (c : String) (merged : List ContextEntry) → includes_url c (step c merged) ≡ true
step-includes c merged = elim (Bool-cases (includes_url c merged)) [
  | inl there ↦ rw there there
  | inr missing ↦ rw missing (includes_url-last c merged)
]

merge-prefix :
    (required : List String) (merged : List ContextEntry)
    → (added : List ContextEntry) × (merge_contexts required merged ≡ merged ++ added)
unfolding merge_contexts
merge-prefix [] merged = ([], sym (append-nil merged))
merge-prefix (c ∷ required) merged =
    let (xs, first) = step-prefix c merged in
    let (ys, rest) = merge-prefix required (step c merged) in
    (xs ++ ys, rest ∙ ap (λ zs. zs ++ ys) first ∙ append_assoc merged xs ys)

merge-includes :
    (required : List String) (merged : List ContextEntry)
    → All (λ u. includes_url u (merge_contexts required merged) ≡ true) required
unfolding merge_contexts
merge-includes [] merged = tt
merge-includes (c ∷ required) merged =
    let (ys, rest) = merge-prefix required (step c merged) in
    (
      ap (includes_url c) rest ∙ includes_url-append c (step c merged) ys (step-includes c merged),
      merge-includes required (step c merged),
    )

merge-same :
    (required : List String) (merged : List ContextEntry)
    → All (λ u. includes_url u merged ≡ true) required
    → merge_contexts required merged ≡ merged
unfolding merge_contexts
merge-same [] merged h = refl
merge-same (c ∷ required) merged (h, hs) = rw h (merge-same required merged hs)

-- After the merge every required context is there, the contexts that the credential brought stay in
-- front in their order, and a second merge changes nothing.
pub with_required_contexts_lem :
    (c : UnsignedCredential) (required : List String)
    → All
        (λ u. includes_url u (context_entries (with_required_contexts c required).context) ≡ true)
        required
      × ((added : List ContextEntry) × (context_entries (with_required_contexts c required).context
            ≡ context_entries (c.context) ++ added))
      × (with_required_contexts (with_required_contexts c required) required
          ≡ with_required_contexts c required)
unfolding with_required_contexts
with_required_contexts_lem c required = (
  merge-includes required (context_entries (c.context)),
  merge-prefix required (context_entries (c.context)),
  ap (λ xs. record c { context = many xs })
      (merge-same required (merge_contexts required (context_entries (c.context)))
        (merge-includes required (context_entries (c.context)))),
)

leads_with_base-append :
    (xs ys : List ContextEntry) → leads_with_base xs ≡ true → leads_with_base (xs ++ ys) ≡ true
leads_with_base-append [] ys h = cc
leads_with_base-append (url c ∷ xs) ys h = h
leads_with_base-append (terms t ∷ xs) ys h = h

-- A credential that passes the check of its context passes it after the merge of required contexts.
pub with_required_contexts-assert :
    (c : UnsignedCredential) (required : List String)
    → assert_credential_context c ≡ ok tt
    → assert_credential_context (with_required_contexts c required) ≡ ok tt
unfolding assert_credential_context with_required_contexts
with_required_contexts-assert c required h =
    elim (Bool-cases (leads_with_base (context_entries (c.context)))) [
      | inr fails ↦ cc (rw fails at h)
      | inl leads ↦
          let (added, e) = merge-prefix required (context_entries (c.context)) in
          rw (e, leads_with_base-append (context_entries (c.context)) added leads)
    ]
