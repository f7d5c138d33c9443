-- ===== src/Signing/Fake.antt =====
-- service/src/services/signing-fake.ts: `FakeSigningService`. `digest` is the SHA-256 of the
-- credential's JSON in hexadecimal, which node:crypto computes.
use vcalm_status_service.Common.{
  ◌≢◌, ◌≡◌, eq_refl, refl, eq_iff, String, List, [], ◌∷◌, ◌++◌, arith, ◌==◌, get_or, string_eq,
  if◌then◌else◌,
}
use vcalm_status_service.Common.Text.{◌⧺◌}
use vcalm_status_service.Json.{Fields, field, end, str}
use vcalm_status_service.Errors.{ok, err, Action, signing_error, issuer_mismatch}
use vcalm_status_service.VcSigner.{
  Cryptosuite, eddsa_rdfc_2022, ecdsa_rdfc_2019, ed25519_signature_2020, UnsignedCredential,
  VerifiableCredential, one_proof,
}
use vcalm_status_service.VcSigner.Credential.{credential_issuer_id}
use vcalm_status_service.Tenants.{IssuerInstance}
use vcalm_status_service.Signing.{SigningService, Signs}

pub record FakeSigningService : Type 0 where
  pub signed : List VerifiableCredential

abbrev pub cryptosuite_text : Cryptosuite → String
cryptosuite_text eddsa_rdfc_2022 = "eddsa-rdfc-2022"
cryptosuite_text ecdsa_rdfc_2019 = "ecdsa-rdfc-2019"
cryptosuite_text ed25519_signature_2020 = "Ed25519Signature2020"

-- The DID of an instance.
unfoldable pub fake_did : IssuerInstance → String
fake_did i = get_or i.issuer_did ("did:example:" ⧺ i.id)

module _ (digest : UnsignedCredential → String) where
  abbrev fake_proof : IssuerInstance → UnsignedCredential → Fields
  fake_proof i u = field "type" (str "FakeProof") (
      field "cryptosuite" (str (cryptosuite_text i.cryptosuite)) (
        field "proofPurpose" (str "assertionMethod") (
          field "verificationMethod" (str (fake_did i ⧺ "#fake"))
            (field "proofValue" (str ("z" ⧺ digest u)) end))))

  abbrev signed_credential : IssuerInstance → UnsignedCredential → VerifiableCredential
  signed_credential i u = record { unsigned = u; proof = one_proof (fake_proof i u) }

  unfoldable pub sign :
      IssuerInstance → UnsignedCredential → Action FakeSigningService VerifiableCredential
  sign i u s =
      if credential_issuer_id u == fake_did i
      then (ok (signed_credential i u), record { signed = s.signed ++ signed_credential i u ∷ [] })
      else (err (signing_error issuer_mismatch), s)

  abbrev pub fake_signing : SigningService
  fake_signing = record {
    State = FakeSigningService;
    issuer_did = λ i s. (ok (fake_did i), s);
    sign = sign;
  }

  -- It signs for every instance.
  pub fake-Signs : (i : IssuerInstance) → Signs fake_signing i
  unfolding sign
  fake-Signs i = record {
    did = fake_did i;
    knows = λ s. (s, refl);
    signs = λ u s h. (
      signed_credential i u,
      record { signed = s.signed ++ signed_credential i u ∷ [] },
      rw (h, eq_refl (fake_did i)),
      refl,
    );
  }

  -- A credential of another issuer is refused, and nothing is logged.
  pub sign_mismatch :
      (i : IssuerInstance) (u : UnsignedCredential) (s : FakeSigningService)
      → credential_issuer_id u ≢ fake_did i
      → sign i u s ≡ (err (signing_error issuer_mismatch), s)
  unfolding sign
  sign_mismatch i u s h = ground (arith, eq_iff (credential_issuer_id u) (fake_did i))
