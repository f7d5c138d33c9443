-- ===== src/Errors.antt =====
-- Thrown values: status-lists/errors.ts, services/storage.ts (StorageErrorCode), services/signing.ts
-- (SigningServiceErrorCode) and packages/vc-signer/src/errors.ts. An error keeps its class and its
-- code; message texts are left out. TenantEnvError, ConfigError and ProvisioningError are thrown
-- before the service starts. A method that may throw is an `Action` over the state it changes.
pub mod Results
use vcalm_status_service.Common.{ℕ, ◌≡◌, refl, ◌⊎◌, inl, inr, Bool, true, false, Option, none, some}

pub data StatusListErrorCode : Type 0 where
  list_too_short unsupported_characteristics list_not_found list_purpose_mismatch
        issuer_instance_unavailable index_out_of_range credential_not_allocated list_exhausted :
      StatusListErrorCode

pub data StorageErrorCode : Type 0 where
  list_not_found duplicate_list index_taken credential_already_allocated : StorageErrorCode

pub data SigningServiceErrorCode : Type 0 where
  signing_unavailable signing_rejected signing_misconfigured : SigningServiceErrorCode

pub data SigningErrorCode : Type 0 where
  unsupported_cryptosuite issuer_mismatch invalid_key_material missing_context invalid_credential :
      SigningErrorCode

-- `plain_error` stands for every other thrown value, such as a library's own.
pub data Error : Type 0 where
  status_list_error : StatusListErrorCode → Error
  storage_error : StorageErrorCode → Error
  signing_service_error : SigningServiceErrorCode → Error
  signing_error : SigningErrorCode → Error
  problem_error : ℕ → Error
  zod_error : Error
  http_exception : ℕ → Error
  tenant_env_error config_error provisioning_error : Error
  plain_error : Error

pub data Result {ℓ} (A : Type ℓ) : Type ℓ where
  ok : A → Result A
  err : Error → Result A

pub Result-cases {ℓ} :
    {A : Type ℓ} (r : Result A) → ((a : A) × (r ≡ ok a)) ⊎ ((e : Error) × (r ≡ err e))
Result-cases (ok a) = inl (a, refl)
Result-cases (err e) = inr (e, refl)

abbrev pub Action : Type 0 → Type 0 → Type 0
Action S A = S → Result A × S

module _ {S A : Type 0} where
  abbrev pub pure : A → Action S A
  pure a s = (ok a, s)

  abbrev pub throw : Error → Action S A
  throw e s = (err e, s)

  -- Lets a result through.
  abbrev pub lift : Result A → Action S A
  lift r s = (r, s)

  abbrev pub gets : (S → A) → Action S A
  gets f s = (ok (f s), s)

  -- `if (o === undefined) throw e`
  abbrev pub or_throw : Option A → Error → Action S A
  or_throw none e s = (err e, s)
  or_throw (some a) e s = (ok a, s)

module _ {S A B : Type 0} where
  abbrev continue : Result A → (A → Action S B) → Action S B
  continue (ok a) f s = f a s
  continue (err e) f s = (err e, s)

  infixl 10 ◌>>=◌ ◌>>◌
  abbrev pub ◌>>=◌ : Action S A → (A → Action S B) → Action S B
  ◌>>=◌ m f s = let (r, t) = m s in continue r f t

  abbrev pub ◌>>◌ : Action S A → Action S B → Action S B
  m >> k = m >>= λ _. k

-- `if (c) throw e`
abbrev pub throw_if : {S : Type 0} → Bool → Error → Action S Unit
throw_if true e s = (err e, s)
throw_if false e s = (ok tt, s)
