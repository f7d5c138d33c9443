-- ===== src/Signing.antt =====
-- service/src/services/signing.ts: the interface `SigningService`. A signer keeps a state of its own
-- (a remote service, a cache, a log of what it signed), so that its calls can be counted.
pub mod Fake
pub mod Local
pub mod Http
use vcalm_status_service.Common.{String, ◌≡◌}
use vcalm_status_service.Errors.{Action, ok}
use vcalm_status_service.VcSigner.{UnsignedCredential, VerifiableCredential}
use vcalm_status_service.VcSigner.Credential.{credential_issuer_id}
use vcalm_status_service.Tenants.{IssuerInstance}

pub record SigningService : Type 1 where
  pub State : Type 0
  pub issuer_did : IssuerInstance → Action State String
  pub sign : IssuerInstance → UnsignedCredential → Action State VerifiableCredential

-- The signer can sign for the instance: it has one DID, and a credential issued by that DID comes
-- back signed, under the id that it had.
pub record Signs (S : SigningService) (i : IssuerInstance) : Type 0 where
  pub did : String
  pub knows : (s : S.State) → (t : S.State) × (S.issuer_did i s ≡ (ok did, t))
  pub signs :
      (u : UnsignedCredential) (s : S.State)
      → credential_issuer_id u ≡ did
      → (v : VerifiableCredential) × (t : S.State) × (S.sign i u s ≡ (ok v, t))
        × (v.unsigned.id ≡ u.id)
