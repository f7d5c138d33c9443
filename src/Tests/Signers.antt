-- ===== src/Tests/Signers.antt =====
-- Signers over a signature library that attaches an empty proof.
use mathlib.Core.Path.{subst}
use vcalm_status_service.Common.{
  ℕ, String, ◌≡◌, refl, true, ◌&&◌, Option, none, some, List, [], ◌==◌, string_eq, if◌then◌else◌,
  eq_iff, Bool-cases, inl, inr, ap, sym, leb, is_some,
}
use vcalm_status_service.VcSigner.Keys.{decode_seed}
use vcalm_status_service.VcSigner.Verify.{proof_cryptosuite}
use vcalm_status_service.Json.{Json, null, arr, cons, nil, str, obj, field, end, member}
use vcalm_status_service.Errors.{
  Result, ok, err, signing_error, invalid_key_material, unsupported_cryptosuite,
}
use vcalm_status_service.VcSigner.{
  UnsignedCredential, VerifiableCredential, one_proof, did, Cryptosuite, eddsa_rdfc_2022,
  ecdsa_rdfc_2019, ed25519_signature_2020, DidMethod, KeyMaterial, ed25519_seed, multikey,
}
use vcalm_status_service.VcSigner.Credential.{
  credential_issuer_id, assert_issuer_matches, assert_credential_context, with_required_contexts,
}
use vcalm_status_service.VcSigner.Signer.{
  SignatureLibraries, SignerConfig, Signer, key_material_matches_cryptosuite, required_contexts,
  load_key_pair, derive_did, sign_credential, create_signer, create_signer_sound,
}
use vcalm_status_service.Tenants.{IssuerInstance}
use vcalm_status_service.Signing.Local.{cache_parts, signer_for}
use vcalm_status_service.Signing.Local.Cache.{IsValid, fresh_signer, signer_for-create_signer}
use vcalm_status_service.Signing.Http.{
  Response, Remote, http_sign, credential_from_response, given, endpoint, http_sign_sound,
}
use vcalm_status_service.Tests.Sample.{instance_1, credential}

abbrev pub libs : SignatureLibraries
libs = record {
  KeyPair = String;
  key_from_seed = λ seed. ok seed;
  key_from_multikey = λ public secret. some secret;
  document_from_key_pair = λ method url family pair.
      ok (record { did = "did:key:z"; assertion_key = some "did:key:z#z" });
  issue = λ suite pair key u. ok (record { unsigned = u; proof = one_proof end });
}

abbrev config : SignerConfig
config = record {
  key_material = ed25519_seed "z1";
  did_method = DidMethod.key;
  cryptosuite = eddsa_rdfc_2022;
  did_url = none;
}

abbrev signer : Signer
signer = record {
  did = "did:key:z";
  verification_method = "did:key:z#z";
  sign_credential = sign_credential libs eddsa_rdfc_2022 "z1" ("did:key:z", "did:key:z#z");
}

abbrev pub unsigned : UnsignedCredential
unsigned = record (credential.unsigned) { issuer = did "did:key:z" }

abbrev pub contexts : List String
contexts = required_contexts eddsa_rdfc_2022

abbrev pub issued : VerifiableCredential
issued = record { unsigned = with_required_contexts unsigned contexts; proof = one_proof end }

create_signer_sound_example :
    (key_material_matches_cryptosuite (ed25519_seed "z1") eddsa_rdfc_2022 ≡ true)
    × (credential_issuer_id unsigned ≡ "did:key:z")
    × (assert_credential_context unsigned ≡ ok tt)
    × ((pair : String) × ◌≡◌ {A = Result VerifiableCredential} (ok issued) (ok issued))
unfolding create_signer load_key_pair derive_did sign_credential assert_issuer_matches
    assert_credential_context
create_signer_sound_example = create_signer_sound libs config signer unsigned issued refl refl

-- One value has a digest of its own.
abbrev digest : Json → String
digest
      (arr (
        cons (str suite) (
          cons
            (str method)
            (cons null (cons (obj (field kind (str k) (field name (str seed) end))) nil))))) =
    if suite == "eddsa-rdfc-2022" && method == "key" && seed == "z1" then "x" else ""
digest _ = ""

abbrev seeded : IssuerInstance
seeded = record instance_1 { key_material = some (ed25519_seed "z1") }

abbrev parts : Cryptosuite → DidMethod → Option String → KeyMaterial → Json
parts c d u k = cache_parts (record seeded { cryptosuite = c; did_method = d; did_url = u }) k

only_seeded :
    (c : Cryptosuite) (d : DidMethod) (u : Option String) (k : KeyMaterial)
    → "x" ≡ digest (parts c d u k)
    → cache_parts seeded (ed25519_seed "z1") ≡ parts c d u k
only_seeded ecdsa_rdfc_2019 DidMethod.key none (ed25519_seed seed) h = cc
only_seeded ecdsa_rdfc_2019 DidMethod.web none (ed25519_seed seed) h = cc
only_seeded ed25519_signature_2020 DidMethod.key none (ed25519_seed seed) h = cc
only_seeded ed25519_signature_2020 DidMethod.web none (ed25519_seed seed) h = cc
only_seeded eddsa_rdfc_2022 DidMethod.web none (ed25519_seed seed) h = cc
only_seeded c d (some u) k h = cc
only_seeded c d none (multikey a b) h = cc
only_seeded eddsa_rdfc_2022 DidMethod.key none (ed25519_seed seed) h =
    elim (Bool-cases (seed == "z1")) [
      | inl same ↦ ap (λ x. cache_parts seeded (ed25519_seed x)) (sym ((eq_iff seed "z1").0 same))
      | inr other ↦ cc (rw other at h)
    ]

unshared :
    (m : KeyMaterial) (j : IssuerInstance) (n : KeyMaterial)
    → seeded.key_material ≡ some m
    → digest (cache_parts seeded m) ≡ digest (cache_parts j n)
    → cache_parts seeded m ≡ cache_parts j n
unshared m j n h =
    let same : ed25519_seed "z1" ≡ m = cc h in
    subst
      (λ k.
        digest (cache_parts seeded k) ≡ digest (cache_parts j n)
        → cache_parts seeded k ≡ cache_parts j n)
      same (only_seeded (j.cryptosuite) (j.did_method) (j.did_url) n)

no_signers-IsValid : IsValid libs digest []
no_signers-IsValid = record { made = λ j m x e. cc }

signer_for-create_signer_example :
    ((signer_for libs digest seeded []).0
      ≡ fresh_signer libs digest seeded (some (ed25519_seed "z1")))
    × IsValid libs digest (signer_for libs digest seeded []).1
signer_for-create_signer_example =
    signer_for-create_signer libs digest seeded unshared [] no_signers-IsValid

-- A remote that signs whatever it is sent.
abbrev pub remote : Remote
remote = record {
  State = ℕ;
  post = λ url token u n. (
    some (record {
      status = 201;
      json = some (obj (field "verifiableCredential" (obj (field "proof" (obj end) end)) end));
    }),
    n,
  );
}

abbrev with_token : IssuerInstance
with_token = record instance_1 { signing_service_token = some "t" }

http_sign_sound_example :
    (token : String) × (a : Response) × (given (some "t") ≡ some token)
    × (remote.post
          (endpoint remote "http://signing:4006/" with_token unsigned 0 0
            (field "proof" (obj end) end))
          token
          unsigned
          0
        ≡ (some a, 0))
    × (leb 200 a.status && leb a.status 299 ≡ true)
    × (is_some (member "proof" (field "proof" (obj end) end)) ≡ true)
unfolding http_sign credential_from_response
http_sign_sound_example =
    http_sign_sound remote "http://signing:4006/" with_token unsigned 0 0
      (field "proof" (obj end) end) refl

-- A seed of 33 characters gives its first 32 bytes, and one of 31 is refused.
seed_tests :
    (decode_seed (λ s. none) "000000000000000000000000000000001"
      ≡ decode_seed (λ s. none) "00000000000000000000000000000000")
    × (decode_seed (λ s. none) "0000000000000000000000000000000"
        ≡ err (signing_error invalid_key_material))
unfolding decode_seed
seed_tests = (refl, refl)

abbrev proved : String → String → VerifiableCredential
proved type suite = record credential {
  proof = one_proof (field "type" (str type) (field "cryptosuite" (str suite) end));
}

-- The suite that the proof names, and a proof of a type that is no suite.
verify_tests :
    (proof_cryptosuite (proved "DataIntegrityProof" "ecdsa-rdfc-2019") ≡ ok ecdsa_rdfc_2019)
    × (proof_cryptosuite (proved "Ed25519Signature2020" "other") ≡ ok ed25519_signature_2020)
    × (proof_cryptosuite (proved "Other" "eddsa-rdfc-2022")
        ≡ err (signing_error unsupported_cryptosuite))
unfolding proof_cryptosuite
verify_tests = (refl, refl, refl)
