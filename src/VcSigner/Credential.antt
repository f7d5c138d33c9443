-- ===== src/VcSigner/Credential.antt =====
-- packages/vc-signer/src/credential.ts.
use vcalm_status_service.Common.{
  String, Bool, true, false, List, [], ◌∷◌, ◌++◌, ◌==◌, string_eq, contains, if◌then◌else◌,
}
use vcalm_status_service.Errors.{Result, ok, err, signing_error, issuer_mismatch, missing_context}
use vcalm_status_service.VcSigner.{
  ContextEntry, url, terms, Context, one, many, did, object, UnsignedCredential,
}

-- `VCDM_BASE_CONTEXTS`
abbrev pub vcdm_base_contexts : List String
vcdm_base_contexts =
    "https://www.w3.org/2018/credentials/v1" ∷ "https://www.w3.org/ns/credentials/v2" ∷ []

-- By its type a credential has an issuer.
abbrev pub credential_issuer_id : UnsignedCredential → String
credential_issuer_id c = elim (c.issuer) [ did d ↦ d | object d _ ↦ d ]

unfoldable pub assert_issuer_matches : UnsignedCredential → String → Result (Unit {0})
assert_issuer_matches c d =
    if credential_issuer_id c == d then ok tt else err (signing_error issuer_mismatch)

abbrev pub context_entries : Context → List ContextEntry
context_entries (one c) = url c ∷ []
context_entries (many cs) = cs

abbrev pub leads_with_base : List ContextEntry → Bool
leads_with_base (url c ∷ _) = contains c vcdm_base_contexts
leads_with_base _ = false

unfoldable pub assert_credential_context : UnsignedCredential → Result (Unit {0})
assert_credential_context c =
    if leads_with_base (context_entries c.context)
    then ok tt
    else err (signing_error missing_context)

-- `merged.includes(context)` of a URL
abbrev pub includes_url : String → List ContextEntry → Bool
includes_url u [] = false
includes_url u (url c ∷ cs) = if c == u then true else includes_url u cs
includes_url u (terms _ ∷ cs) = includes_url u cs

-- The loop of `withRequiredContexts`.
unfoldable pub merge_contexts : List String → List ContextEntry → List ContextEntry
merge_contexts [] merged = merged
merge_contexts (c ∷ required) merged =
    merge_contexts required (if includes_url c merged then merged else merged ++ url c ∷ [])

unfoldable pub with_required_contexts : UnsignedCredential → List String → UnsignedCredential
with_required_contexts c required = record c {
  context = many (merge_contexts required (context_entries c.context));
}
