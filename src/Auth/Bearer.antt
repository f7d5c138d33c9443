-- ===== src/Auth/Bearer.antt =====
-- Which callers `createTenantAuth` of service/src/auth.ts lets in.
use text.Mathlib.TextLemmas.{cons-append, nil-append}
use vcalm_status_service.Common.{
  true, ◌==◌, Bool-cases, false, String, ◌≡◌, ◌≢◌, refl, sym, ◌∙◌, ap, Option, none, some, arith,
  string_eq, eq_iff, beq_ne, Option-cases, ◌⊎◌, inl, inr, get_or,
}
use vcalm_status_service.Common.Text.{◌⧺◌}
use vcalm_status_service.Common.Ascii.{lower_case, trim, cut}
use vcalm_status_service.Json.{Json, null, bool, num, str, arr, obj, Fields, member}
use vcalm_status_service.Errors.{ok, err, problem_error}
use vcalm_status_service.Tenants.{TenantRecord, TenantRegistry}
use vcalm_status_service.Auth.{
  subject_text, subject_of, bearer_token_of, bearer_token, tenant_id_from_access_token,
  resolve_tenant, tenant_auth, authenticated,
}

-- A header that gives a token has the scheme `Bearer`, in any case, and the token is not empty.
pub bearer_token_sound :
    (header token : String)
    → bearer_token (some header) ≡ some token
    → (lower_case (cut b' ' header).0 ≡ "bearer") × (token ≢ "")
unfolding bearer_token_of
bearer_token_sound header token h = ground (
  arith,
  eq_iff (lower_case (cut b' ' header).0) "bearer",
  eq_iff (trim (get_or (cut b' ' header).1 "")) "",
)

cut-bearer : (token : String) → cut b' ' ("Bearer " ⧺ token) ≡ ("Bearer", some token)
cut-bearer token = ap (cut b' ') (
    cons-append "B" "earer " token
    ∙ ap (String.◌∷◌ "B") (
        cons-append "e" "arer " token
        ∙ ap (String.◌∷◌ "e") (
            cons-append "a" "rer " token
            ∙ ap (String.◌∷◌ "a") (
                cons-append "r" "er " token
                ∙ ap (String.◌∷◌ "r") (
                    cons-append "e" "r " token
                    ∙ ap (String.◌∷◌ "e") (
                        cons-append "r" " " token
                        ∙ ap (String.◌∷◌ "r") (
                            cons-append " " "" token ∙ ap (String.◌∷◌ " ") (nil-append token))))))))

bearer_nonempty : (token : String) → "Bearer " ⧺ token ≢ ""
bearer_nonempty token e = cc (sym (cons-append "B" "earer " token) ∙ e)

-- A token that is not empty and has no white space around it is read back from the header `Bearer
-- <token>`.
pub bearer_token_of-bearer :
    (token : String)
    → trim token ≡ token
    → token ≢ ""
    → bearer_token (some ("Bearer " ⧺ token)) ≡ some token
unfolding bearer_token_of
bearer_token_of-bearer token h k =
    rw (cut-bearer token, beq_ne (bearer_nonempty token)) (rw h (rw (beq_ne k) refl))

not_blank : (s : String) → (s == "") ≡ false → s ≢ ""
not_blank s h e = let self : (s == "") ≡ true = (eq_iff s "").1 e in cc

module _ (verify : String → String → Option Json) (tenants : TenantRegistry) where
  ok_tenant :
      (found : Option TenantRecord) {tenant : TenantRecord}
      → authenticated verify found ≡ ok tenant
      → found ≡ some tenant
  ok_tenant none e = cc
  ok_tenant (some x) e = cc

  -- The token verifies under the secret, and its payload names a subject.
  pub record IsAccessToken (secret : Option String) (token sub : String) : Type 0 where
    pub key : String
    pub claims : Fields
    pub configured : secret ≡ some key
    pub key_named : key ≢ ""
    pub verified : verify token key ≡ some (obj claims)
    pub subject : member "sub" claims ≡ some (str sub)
    pub named : sub ≢ ""

  subject_text-str :
      (found : Option Json) {id : String}
      → subject_text found ≡ some id
      → (sub : String) × (found ≡ some (str sub)) × (sub ≢ "") × (id ≡ lower_case sub)
  subject_text-str (some (str sub)) {id} h = elim (Bool-cases (sub == "")) [
    | inl blank ↦ cc (rw blank at h)
    | inr named ↦
        let same : lower_case sub ≡ id = ap (λ o. get_or o id) (rw named at h) in
        (sub, refl, not_blank sub named, sym same)
  ]
  subject_text-str none h = cc
  subject_text-str (some null) h = cc
  subject_text-str (some (bool x)) h = cc
  subject_text-str (some (num n)) h = cc
  subject_text-str (some (arr items)) h = cc
  subject_text-str (some (obj fs)) h = cc

  subject_of-obj :
      (payload : Option Json) {id : String}
      → subject_of payload ≡ some id
      → (claims : Fields) × (payload ≡ some (obj claims))
        × (subject_text (member "sub" claims) ≡ some id)
  subject_of-obj (some (obj fs)) h = (fs, refl, h)
  subject_of-obj none h = cc
  subject_of-obj (some null) h = cc
  subject_of-obj (some (bool x)) h = cc
  subject_of-obj (some (num n)) h = cc
  subject_of-obj (some (str s)) h = cc
  subject_of-obj (some (arr items)) h = cc

  access_token :
      (secret : Option String) (token id : String)
      → tenant_id_from_access_token verify token secret ≡ some id
      → (sub : String) × IsAccessToken secret token sub × (id ≡ lower_case sub)
  access_token none token id h = cc
  access_token (some key) token id h = elim (Bool-cases (key == "")) [
    | inl blank ↦ cc (rw blank at h)
    | inr keyed ↦
        let (claims, verified, text) = subject_of-obj (verify token key) (rw keyed at h) in
        let (sub, subject, named, same) = subject_text-str (member "sub" claims) text in
        (
          sub,
          record {
            key = key;
            claims = claims;
            configured = refl;
            key_named = not_blank key keyed;
            verified = verified;
            subject = subject;
            named = named;
          },
          same,
        )
  ]

  -- What is accepted as an access token is not opaque.
  no-IsAccessToken :
      (secret : Option String) (token sub : String)
      → tenant_id_from_access_token verify token secret ≡ none
      → ¬ IsAccessToken secret token sub
  no-IsAccessToken none token sub h a = cc a.configured
  no-IsAccessToken (some key) token sub h a =
      let same : key ≡ a.key = ap (λ o. get_or o key) a.configured in
      let keyed : (key == "") ≡ false = beq_ne (λ e. a.key_named (sym same ∙ e)) in
      let verified : verify token key ≡ some (obj a.claims) = ap (verify token) same ∙ a.verified in
      cc (rw (keyed, verified, a.subject, beq_ne a.named) at h)

  -- A caller with a bearer token that is let in is let in as one of two tenants. Either the token
  -- verifies under the configured secret, which is not empty, its payload is an object with a
  -- subject that is not empty, and the registry gives the tenant for that subject in lower case; or
  -- there is no such subject of the token, and the registry gives the tenant for the bearer token
  -- itself.
  pub tenant_auth_sound :
      (secret : Option String) (header token : String) (tenant : TenantRecord)
      → bearer_token (some header) ≡ some token
      → tenant_auth verify tenants secret (some header) ≡ ok tenant
      → ((sub : String) × IsAccessToken secret token sub
          × (tenants.get_tenant (lower_case sub) ≡ some tenant))
        ⊎ ((sub : String) → ¬ IsAccessToken secret token sub)
          × (tenants.get_tenant_by_token token ≡ some tenant)
  unfolding tenant_auth resolve_tenant
  tenant_auth_sound secret header token tenant h e =
      elim (Option-cases (tenant_id_from_access_token verify token secret)) [
        | inl opaque ↦
            inr (λ sub. no-IsAccessToken secret token sub opaque, ok_tenant _ (rw (h, opaque) at e))
        | inr (id, named) ↦
            let (sub, valid, same) = access_token secret token id named in
            let found : tenants.get_tenant id ≡ some tenant = ok_tenant _ (rw (h, named) at e) in
            inl (sub, valid, ap tenants.get_tenant (sym same) ∙ found)
      ]

  -- A registry that gives no tenant for any id and any token refuses every caller with 401,
  -- whatever secret and header it is given.
  pub tenant_auth_empty :
      ((id : String) → tenants.get_tenant id ≡ none)
      → ((token : String) → tenants.get_tenant_by_token token ≡ none)
      → (secret header : Option String)
      → tenant_auth verify tenants secret header ≡ err (problem_error 401)
  unfolding tenant_auth resolve_tenant
  tenant_auth_empty no_id no_token secret header = elim (Option-cases (bearer_token header)) [
    | inl missing ↦ rw missing
    | inr (token, e) ↦ elim (Option-cases (tenant_id_from_access_token verify token secret)) [
      | inl opaque ↦ rw (e, opaque, no_token token)
      | inr (id, named) ↦ rw (e, named, no_id id)
    ]
  ]
