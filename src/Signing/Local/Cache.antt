-- ===== src/Signing/Local/Cache.antt =====
-- The cache of signers of service/src/services/signing-local.ts gives each instance its own signer.
use vcalm_status_service.Common.{
  get_or, String, ◌≡◌, refl, sym, ap, ◌∙◌, Option, none, some, ◌==◌, string_eq, if◌then◌else◌,
  Bool-cases, inl, inr, eq_iff,
}
use vcalm_status_service.Common.Dict
use vcalm_status_service.Common.Dict.{get-put}
use vcalm_status_service.Json.{Json}
use vcalm_status_service.Errors.{Result, ok, err, signing_error, invalid_key_material}
use vcalm_status_service.VcSigner.{
  Cryptosuite, DidMethod, eddsa_rdfc_2022, ecdsa_rdfc_2019, ed25519_signature_2020, KeyMaterial,
  ed25519_seed, multikey, cryptosuite_name, supported_cryptosuite, did_method_name,
}
use vcalm_status_service.VcSigner.Signer.{SignatureLibraries, SignerConfig, Signer, create_signer}
use vcalm_status_service.Tenants.{IssuerInstance}
use vcalm_status_service.Signing.Local.{
  key_material_json, url_json, cache_parts, cache_key, given_url, signer_config, LocalSigners, kept,
  cached_or_made, signer_by_key, signer_for,
}

supported_cryptosuite-name : (c : Cryptosuite) → supported_cryptosuite (cryptosuite_name c) ≡ some c
supported_cryptosuite-name eddsa_rdfc_2022 = refl
supported_cryptosuite-name ecdsa_rdfc_2019 = refl
supported_cryptosuite-name ed25519_signature_2020 = refl

cryptosuite_name_injective : (a b : Cryptosuite) → cryptosuite_name a ≡ cryptosuite_name b → a ≡ b
cryptosuite_name_injective a b h =
    ap (λ o. get_or o a)
      (sym (supported_cryptosuite-name a)
        ∙ ap supported_cryptosuite h
        ∙ supported_cryptosuite-name b)

did_method_of : String → DidMethod
did_method_of name = if name == "key" then DidMethod.key else DidMethod.web

did_method_of-name : (m : DidMethod) → did_method_of (did_method_name m) ≡ m
unfolding did_method_of
did_method_of-name DidMethod.key = refl
did_method_of-name DidMethod.web = refl

did_method_name_injective : (a b : DidMethod) → did_method_name a ≡ did_method_name b → a ≡ b
did_method_name_injective a b h =
    sym (did_method_of-name a) ∙ ap did_method_of h ∙ did_method_of-name b

url_json_injective : (a b : Option String) → url_json a ≡ url_json b → a ≡ b
url_json_injective none none h = refl
url_json_injective (some a) (some b) h = let same : a ≡ b = cc in ap some same
url_json_injective none (some b) h = cc
url_json_injective (some a) none h = cc

key_material_json_injective :
    (a b : KeyMaterial) → key_material_json a ≡ key_material_json b → a ≡ b
key_material_json_injective (ed25519_seed a) (ed25519_seed b) h =
    let same : a ≡ b = cc in ap ed25519_seed same
key_material_json_injective (multikey a b) (multikey c d) h =
    let public : a ≡ c = cc in
    let secret : b ≡ d = cc in ap (λ x. multikey x b) public ∙ ap (multikey c) secret
key_material_json_injective (ed25519_seed a) (multikey c d) h = cc
key_material_json_injective (multikey a b) (ed25519_seed c) h = cc

abbrev config_from : Cryptosuite → DidMethod → Option String → KeyMaterial → SignerConfig
config_from suite method url m = record {
  key_material = m;
  did_method = method;
  cryptosuite = suite;
  did_url = given_url url;
}

-- What the key is made of determines what a signer is made of.
cache_parts_determine :
    (i j : IssuerInstance) (m n : KeyMaterial)
    → cache_parts i m ≡ cache_parts j n
    → signer_config i m ≡ signer_config j n
cache_parts_determine i j m n h =
    let suite : cryptosuite_name i.cryptosuite ≡ cryptosuite_name j.cryptosuite = cc in
    let method : did_method_name i.did_method ≡ did_method_name j.did_method = cc in
    let url : url_json i.did_url ≡ url_json j.did_url = cc in
    let material : key_material_json m ≡ key_material_json n = cc in
    ap (λ x. config_from x i.did_method i.did_url m) (cryptosuite_name_injective _ _ suite)
    ∙ ap (λ x. config_from j.cryptosuite x i.did_url m) (did_method_name_injective _ _ method)
    ∙ ap (λ x. config_from j.cryptosuite j.did_method x m) (url_json_injective _ _ url)
    ∙ ap (config_from j.cryptosuite j.did_method j.did_url)
        (key_material_json_injective m n material)

module _ (libs : SignatureLibraries) (digest : Json → String) where
  -- A signer that is kept under the key of an instance and its material is what they make.
  pub record IsValid (s : LocalSigners) : Type 0 where
    pub made :
        (i : IssuerInstance) (m : KeyMaterial) (signer : Signer)
        → Dict.get (cache_key libs digest i m) s ≡ some signer
        → create_signer libs (signer_config i m) ≡ ok signer

  -- A signer made for the instance alone.
  abbrev pub fresh_signer : IssuerInstance → Option KeyMaterial → Result Signer
  fresh_signer i none = err (signing_error invalid_key_material)
  fresh_signer i (some m) = create_signer libs (record {
    key_material = m;
    did_method = i.did_method;
    cryptosuite = i.cryptosuite;
    did_url = given_url i.did_url;
  })

  module _ (i : IssuerInstance)
      (unshared : (m : KeyMaterial) (j : IssuerInstance) (n : KeyMaterial)
        → i.key_material ≡ some m
        → digest (cache_parts i m) ≡ digest (cache_parts j n)
        → cache_parts i m ≡ cache_parts j n)
      (s : LocalSigners) (valid : IsValid s) where
    put_made :
        (m : KeyMaterial) (j : IssuerInstance) (n : KeyMaterial) (signer x : Signer)
        → i.key_material ≡ some m
        → create_signer libs (signer_config i m) ≡ ok signer
        → (if cache_key libs digest i m == cache_key libs digest j n
            then some signer
            else Dict.get (cache_key libs digest j n) s)
          ≡ some x
        → create_signer libs (signer_config j n) ≡ ok x
    put_made m j n signer x held e h =
        elim (Bool-cases (cache_key libs digest i m == cache_key libs digest j n)) [
          | inl same ↦
              let it : signer ≡ x = cc (rw same at h) in
              let parts = unshared m j n held ((eq_iff _ _).0 same) in
              ap (create_signer libs) (sym (cache_parts_determine i j m n parts))
              ∙ e
              ∙ ap (λ y. ok y) it
          | inr other ↦ valid.made j n x (rw other at h)
        ]

    put-IsValid :
        (m : KeyMaterial) (signer : Signer)
        → i.key_material ≡ some m
        → create_signer libs (signer_config i m) ≡ ok signer
        → IsValid (Dict.put (cache_key libs digest i m) signer s)
    put-IsValid m signer held e = record {
      made = λ j n x h.
          put_made m j n signer x held e
            (sym (get-put (cache_key libs digest i m) (cache_key libs digest j n) signer s) ∙ h);
    }

    -- The cache of signers is transparent: in a valid cache, where no other parts of a key have the
    -- digest of the instance's, `signer_for` gives what `createSigner` gives for the instance's key
    -- material, DID method, cryptosuite and URL, errors included, or the error for key material
    -- that is missing, and the cache stays valid.
    pub signer_for-create_signer :
        ((signer_for libs digest i s).0 ≡ fresh_signer i (i.key_material))
        × IsValid (signer_for libs digest i s).1
    unfolding signer_for
    signer_for-create_signer = by_material (i.key_material) refl
      where
        after_create :
            (m : KeyMaterial) (made : Result Signer)
            → i.key_material ≡ some m
            → create_signer libs (signer_config i m) ≡ made
            → ((kept libs digest (cache_key libs digest i m) made s).0 ≡ made)
              × IsValid (kept libs digest (cache_key libs digest i m) made s).1
        after_create m (ok signer) held e = (refl, put-IsValid m signer held e)
        after_create m (err x) held e = (refl, valid)

        after_lookup :
            (m : KeyMaterial) (cached : Option Signer)
            → i.key_material ≡ some m
            → Dict.get (cache_key libs digest i m) s ≡ cached
            → ((cached_or_made libs digest i m cached s).0 ≡ create_signer libs (signer_config i m))
              × IsValid (cached_or_made libs digest i m cached s).1
        after_lookup m (some signer) held e = (sym (valid.made i m signer e), valid)
        after_lookup m none held e =
            after_create m (create_signer libs (signer_config i m)) held refl

        by_material :
            (m : Option KeyMaterial)
            → i.key_material ≡ m
            → ((signer_by_key libs digest i m s).0 ≡ fresh_signer i m)
              × IsValid (signer_by_key libs digest i m s).1
        by_material none h = (refl, valid)
        by_material (some m) h = after_lookup m (Dict.get (cache_key libs digest i m) s) h refl
