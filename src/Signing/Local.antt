-- ===== src/Signing/Local.antt =====
-- service/src/services/signing-local.ts: signers made in-process and kept by what they are made of.
-- `digest` is what node:crypto makes of the text of a JSON value. A signer that is being made is kept
-- as one that is made; calls here are in order.
pub mod Cache
use vcalm_status_service.Common.{String, Option, none, some, ◌==◌, string_eq, if◌then◌else◌}
use vcalm_status_service.Common.Dict
use vcalm_status_service.Common.Dict.{Dict}
use vcalm_status_service.Json.{Json, null, str, arr, obj, cons, nil, field, end}
use vcalm_status_service.Errors.{
  Result, ok, err, Action, lift, ◌>>=◌, pure, signing_error, invalid_key_material,
}
use vcalm_status_service.VcSigner.{
  KeyMaterial, ed25519_seed, multikey, cryptosuite_name, did_method_name, UnsignedCredential,
  VerifiableCredential,
}
use vcalm_status_service.VcSigner.Signer.{SignatureLibraries, SignerConfig, Signer, create_signer}
use vcalm_status_service.Tenants.{IssuerInstance}
use vcalm_status_service.Signing.{SigningService}

abbrev pub key_material_json : KeyMaterial → Json
key_material_json (ed25519_seed seed) =
    obj (field "kind" (str "ed25519-seed") (field "seed" (str seed) end))
key_material_json (multikey public secret) = obj (
    field "kind" (str "multikey")
      (field "publicKeyMultibase" (str public) (field "secretKeyMultibase" (str secret) end)))

-- `instance.didUrl ?? null`
abbrev pub url_json : Option String → Json
url_json none = null
url_json (some url) = str url

-- The value whose text `#cacheKey` takes the digest of.
abbrev pub cache_parts : IssuerInstance → KeyMaterial → Json
cache_parts i m = arr (
    cons (str (cryptosuite_name i.cryptosuite)) (
      cons (str (did_method_name i.did_method))
        (cons (url_json i.did_url) (cons (key_material_json m) nil))))

-- `instance.didUrl ? { didUrl } : {}`
abbrev pub given_url : Option String → Option String
given_url none = none
given_url (some url) = if url == "" then none else some url

-- What `createSigner` is called with.
abbrev pub signer_config : IssuerInstance → KeyMaterial → SignerConfig
signer_config i m = record {
  key_material = m;
  did_method = i.did_method;
  cryptosuite = i.cryptosuite;
  did_url = given_url i.did_url;
}

abbrev pub LocalSigners : Type 0
LocalSigners = Dict Signer

module _ (libs : SignatureLibraries) (digest : Json → String) where
  -- `#cacheKey`
  abbrev pub cache_key : IssuerInstance → KeyMaterial → String
  cache_key i m = digest (cache_parts i m)

  -- A signer that could not be made is not kept.
  abbrev pub kept : String → Result Signer → Action LocalSigners Signer
  kept key (ok signer) s = (ok signer, Dict.put key signer s)
  kept key (err e) s = (err e, s)

  abbrev pub cached_or_made :
      IssuerInstance → KeyMaterial → Option Signer → Action LocalSigners Signer
  cached_or_made i m (some signer) s = (ok signer, s)
  cached_or_made i m none s = kept (cache_key i m) (create_signer libs (signer_config i m)) s

  abbrev pub signer_by_key : IssuerInstance → Option KeyMaterial → Action LocalSigners Signer
  signer_by_key i none s = (err (signing_error invalid_key_material), s)
  signer_by_key i (some m) s = cached_or_made i m (Dict.get (cache_key i m) s) s

  -- `#signerFor`
  unfoldable pub signer_for : IssuerInstance → Action LocalSigners Signer
  signer_for i = signer_by_key i i.key_material

  -- `issuerDid`
  unfoldable pub local_issuer_did : IssuerInstance → Action LocalSigners String
  local_issuer_did i = do signer ← signer_for i; pure signer.did

  -- `sign`
  unfoldable pub local_sign :
      IssuerInstance → UnsignedCredential → Action LocalSigners VerifiableCredential
  local_sign i u = do signer ← signer_for i; lift (signer.sign_credential u)

  abbrev pub local_signing : SigningService
  local_signing = record { State = LocalSigners; issuer_did = local_issuer_did; sign = local_sign }
