-- ===== src/VcSigner.antt =====
-- packages/vc-signer/src/types.ts: credentials, keys and cryptosuites.
pub mod Credential
pub mod Contexts
pub mod Signer
pub mod Keys
pub mod Verify
use vcalm_status_service.Common.{String, Option, List, [], ◌∷◌, find, ◌==◌, string_eq}
use vcalm_status_service.Json.{Fields}

-- An entry of `@context`: a URL or an object.
pub data ContextEntry : Type 0 where
  url : String → ContextEntry
  terms : Fields → ContextEntry

pub data Context : Type 0 where
  one : String → Context
  many : List ContextEntry → Context

pub data CredentialType : Type 0 where
  one_type : String → CredentialType
  many_types : List String → CredentialType

pub data Issuer : Type 0 where
  did : String → Issuer
  object : String → Fields → Issuer

-- The named members, and `rest` for the open part `[key: string]: unknown`.
pub record UnsignedCredential : Type 0 where
  pub context : Context
  pub id : Option String
  pub type : CredentialType
  pub issuer : Issuer
  pub rest : Fields

pub data Proof : Type 0 where
  one_proof : Fields → Proof
  many_proofs : List Fields → Proof

pub record VerifiableCredential : Type 0 where
  pub unsigned : UnsignedCredential
  pub open unsigned use *
  pub proof : Proof

pub data Cryptosuite : Type 0 where
  eddsa_rdfc_2022 ecdsa_rdfc_2019 ed25519_signature_2020 : Cryptosuite

pub data KeyFamily : Type 0 where
  ed25519 p256 : KeyFamily

pub data KeyMaterial : Type 0 where
  ed25519_seed : String → KeyMaterial
  multikey : (public_key_multibase secret_key_multibase : String) → KeyMaterial

pub data DidMethod : Type 0 where
  key web : DidMethod

-- A suite's name, as credentials and the environment spell it.
abbrev pub cryptosuite_name : Cryptosuite → String
cryptosuite_name eddsa_rdfc_2022 = "eddsa-rdfc-2022"
cryptosuite_name ecdsa_rdfc_2019 = "ecdsa-rdfc-2019"
cryptosuite_name ed25519_signature_2020 = "Ed25519Signature2020"

-- `SUPPORTED_CRYPTOSUITES`
abbrev supported_cryptosuites : List Cryptosuite
supported_cryptosuites = eddsa_rdfc_2022 ∷ ecdsa_rdfc_2019 ∷ ed25519_signature_2020 ∷ []

-- The suite of a name for which `isSupportedCryptosuite` holds.
abbrev pub supported_cryptosuite : String → Option Cryptosuite
supported_cryptosuite name = find (λ c. cryptosuite_name c == name) supported_cryptosuites

abbrev pub did_method_name : DidMethod → String
did_method_name DidMethod.key = "key"
did_method_name DidMethod.web = "web"
