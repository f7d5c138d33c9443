-- ===== src/VcSigner/Signer.antt =====
-- packages/vc-signer/src/cryptosuites.ts, `loadKeyPair` of key-material.ts, `deriveDid` of did.ts and
-- signer.ts. The signature and DID libraries, and the decoding of a seed, are a parameter.
use mathlib.Core.Path.{subst}
use vcalm_status_service.Common.{
  String, ◌≡◌, refl, ap, ◌∙◌, sym, Bool, true, false, Option, none, some, List, [], ◌∷◌, ◌==◌,
  string_eq, if◌then◌else◌, Bool-cases, inl, inr, eq_iff,
}
use vcalm_status_service.Errors.{Result, ok, err, signing_error, invalid_key_material}
use vcalm_status_service.VcSigner.{
  UnsignedCredential, VerifiableCredential, Cryptosuite, eddsa_rdfc_2022, ecdsa_rdfc_2019,
  ed25519_signature_2020, KeyFamily, ed25519, p256, KeyMaterial, ed25519_seed, multikey, DidMethod,
}
use vcalm_status_service.VcSigner.Credential.{
  credential_issuer_id, assert_issuer_matches, assert_credential_context, with_required_contexts,
}

-- `keyFamily` of a suite.
abbrev pub key_family : Cryptosuite → KeyFamily
key_family eddsa_rdfc_2022 = ed25519
key_family ecdsa_rdfc_2019 = p256
key_family ed25519_signature_2020 = ed25519

-- `requiredContexts` of a suite.
abbrev pub required_contexts : Cryptosuite → List String
required_contexts eddsa_rdfc_2022 = "https://w3id.org/security/data-integrity/v2" ∷ []
required_contexts ecdsa_rdfc_2019 = "https://w3id.org/security/data-integrity/v2" ∷ []
required_contexts ed25519_signature_2020 = "https://w3id.org/security/suites/ed25519-2020/v1" ∷ []

abbrev suits_family : KeyMaterial → KeyFamily → Bool
suits_family (ed25519_seed _) ed25519 = true
suits_family (multikey _ _) ed25519 = false
suits_family (ed25519_seed _) p256 = false
suits_family (multikey _ _) p256 = true

-- `keyMaterialMatchesCryptosuite`
abbrev pub key_material_matches_cryptosuite : KeyMaterial → Cryptosuite → Bool
key_material_matches_cryptosuite m c = suits_family m (key_family c)

-- The DID of a document, and the id of its assertion key, if it has one.
pub record DerivedDocument : Type 0 where
  pub did : String
  pub assertion_key : Option String

pub record SignatureLibraries : Type 1 where
  pub KeyPair : Type 0
  pub key_from_seed : String → Result KeyPair
  pub key_from_multikey : String → String → Option KeyPair
  pub document_from_key_pair :
      DidMethod → Option String → KeyFamily → KeyPair → Result DerivedDocument
  pub issue : Cryptosuite → KeyPair → String → UnsignedCredential → Result VerifiableCredential

pub record SignerConfig : Type 0 where
  pub key_material : KeyMaterial
  pub did_method : DidMethod
  pub cryptosuite : Cryptosuite
  pub did_url : Option String

pub record Signer : Type 0 where
  pub did : String
  pub verification_method : String
  pub sign_credential : UnsignedCredential → Result VerifiableCredential

abbrev then_ok : {A B : Type 0} → Result A → (A → Result B) → Result B
then_ok (ok a) f = f a
then_ok (err e) f = err e

then_ok-ok :
    {A B : Type 0} (r : Result A) (f : A → Result B) (b : B)
    → then_ok r f ≡ ok b
    → (a : A) × (r ≡ ok a) × (f a ≡ ok b)
then_ok-ok (ok a) f b h = (a, refl, h)
then_ok-ok (err e) f b h = cc

-- `!didUrl`
abbrev is_blank : Option String → Bool
is_blank none = true
is_blank (some s) = s == ""

issuer_matches :
    (u : UnsignedCredential) (d : String) {x : Unit {0}}
    → assert_issuer_matches u d ≡ ok x
    → credential_issuer_id u ≡ d
unfolding assert_issuer_matches
issuer_matches u d h = elim (Bool-cases (credential_issuer_id u == d)) [
  | inl same ↦ (eq_iff _ _).0 same
  | inr other ↦ cc (rw other at h)
]

module _ (libs : SignatureLibraries) where
  abbrev from_multikey : Option libs.KeyPair → Result libs.KeyPair
  from_multikey none = err (signing_error invalid_key_material)
  from_multikey (some pair) = ok pair

  abbrev pair_from : KeyMaterial → Result libs.KeyPair
  pair_from (ed25519_seed seed) = libs.key_from_seed seed
  pair_from (multikey public secret) = from_multikey (libs.key_from_multikey public secret)

  -- `loadKeyPair`
  unfoldable pub load_key_pair : KeyMaterial → Cryptosuite → Result libs.KeyPair
  load_key_pair m c =
      if key_material_matches_cryptosuite m c
      then pair_from m
      else err (signing_error invalid_key_material)

  abbrev url_missing : DidMethod → Option String → Bool
  url_missing DidMethod.key url = false
  url_missing DidMethod.web url = is_blank url

  abbrev bound : String → Option String → Result (String × String)
  bound did none = err (signing_error invalid_key_material)
  bound did (some key) =
      if key == "" then err (signing_error invalid_key_material) else ok (did, key)

  -- `deriveDid`: the DID and the id of the key that signs.
  unfoldable pub derive_did :
      DidMethod → Option String → KeyFamily → libs.KeyPair → Result (String × String)
  derive_did method url family pair =
      if url_missing method url
      then err (signing_error invalid_key_material)
      else then_ok (libs.document_from_key_pair method url family pair)
          (λ document. bound document.did document.assertion_key)

  -- `signCredential`
  unfoldable pub sign_credential :
      Cryptosuite
      → libs.KeyPair
      → String × String
      → UnsignedCredential
      → Result VerifiableCredential
  sign_credential suite pair (did, key) u = then_ok (assert_issuer_matches u did) (λ _.
      then_ok (assert_credential_context u)
        (λ _. libs.issue suite pair key (with_required_contexts u (required_contexts suite))))

  abbrev signer_of : SignerConfig → libs.KeyPair → String × String → Signer
  signer_of config pair b = record {
    did = b.0;
    verification_method = b.1;
    sign_credential = sign_credential config.cryptosuite pair b;
  }

  abbrev signer_for_pair : SignerConfig → libs.KeyPair → Result Signer
  signer_for_pair config pair =
      then_ok (derive_did config.did_method config.did_url (key_family config.cryptosuite) pair)
        (λ b. ok (signer_of config pair b))

  -- `createSigner`
  unfoldable pub create_signer : SignerConfig → Result Signer
  create_signer config =
      then_ok (load_key_pair config.key_material config.cryptosuite) (signer_for_pair config)

  matches_of_loaded :
      (m : KeyMaterial) (c : Cryptosuite) (pair : libs.KeyPair)
      → load_key_pair m c ≡ ok pair
      → key_material_matches_cryptosuite m c ≡ true
  unfolding load_key_pair
  matches_of_loaded m c pair h = elim (Bool-cases (key_material_matches_cryptosuite m c)) [
    | inl matching ↦ matching
    | inr other ↦ cc (rw other at h)
  ]

  -- What a signer signs: if a signer is made from a configuration and signs a credential, then the
  -- key material suits the cryptosuite, the credential's issuer is the signer's DID, its context
  -- leads with a base context, and the signature is over the credential with the suite's contexts
  -- merged in, by the signer's verification method.
  pub create_signer_sound :
      (config : SignerConfig) (signer : Signer) (u : UnsignedCredential) (v : VerifiableCredential)
      → create_signer config ≡ ok signer
      → signer.sign_credential u ≡ ok v
      → (key_material_matches_cryptosuite (config.key_material) (config.cryptosuite) ≡ true)
        × (credential_issuer_id u ≡ signer.did)
        × (assert_credential_context u ≡ ok tt)
        × ((pair : libs.KeyPair) × (libs.issue
                (config.cryptosuite)
                pair
                (signer.verification_method)
                (with_required_contexts u (required_contexts config.cryptosuite))
              ≡ ok v))
  unfolding create_signer load_key_pair sign_credential
  create_signer_sound config signer u v made signed =
      let (pair, loaded, rest) =
        then_ok-ok (load_key_pair (config.key_material) (config.cryptosuite))
          (signer_for_pair config) signer made in
      let (b, derived, built) =
        then_ok-ok
          (derive_did (config.did_method) (config.did_url) (key_family config.cryptosuite) pair)
          (λ x. ok (signer_of config pair x)) signer rest in
      let same : signer_of config pair b ≡ signer = cc built in
      let run : sign_credential (config.cryptosuite) pair b u ≡ ok v =
        subst (λ (x : Signer). x.sign_credential u ≡ ok v) (sym same) signed in
      let (_, issuer, checked) =
        then_ok-ok (assert_issuer_matches u (b.0))
          (λ _. then_ok (assert_credential_context u) (λ _.
            libs.issue (config.cryptosuite) pair (b.1)
              (with_required_contexts u (required_contexts config.cryptosuite))))
          v run in
      let (_, context, issued) =
        then_ok-ok (assert_credential_context u)
          (λ _.
            libs.issue (config.cryptosuite) pair (b.1)
              (with_required_contexts u (required_contexts config.cryptosuite)))
          v checked in
      (
        matches_of_loaded (config.key_material) (config.cryptosuite) pair loaded,
        issuer_matches u (b.0) issuer ∙ ap (λ (x : Signer). x.did) same,
        context,
        (
          pair,
          subst
              (λ (x : Signer).
                libs.issue (config.cryptosuite) pair (x.verification_method)
                  (with_required_contexts u (required_contexts config.cryptosuite))
                ≡ ok v)
              same issued,
        ),
      )
