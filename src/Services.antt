-- ===== src/Services.antt =====
-- service/src/services/index.ts: the services that a configuration selects. A connection to a
-- database is the state of the SQL storage; the clients over the network are parameters.
pub mod Selects
use vcalm_status_service.Common.{String, Bool}
use vcalm_status_service.Json.{Json, Fields}
use vcalm_status_service.Errors.{Result, ok, pure, lift, ◌>>=◌ as ◌then◌}
use vcalm_status_service.Errors.Results.{◌>>=◌}
use vcalm_status_service.VcSigner.{UnsignedCredential, VerifiableCredential}
use vcalm_status_service.VcSigner.Signer.{SignatureLibraries}
use vcalm_status_service.Tenants.{TenantRegistry}
use vcalm_status_service.Tenants.Memory.{MemoryTenantRegistry, empty_registry, memory_tenants}
use vcalm_status_service.Tenants.Env.{Env, env_registry}
use vcalm_status_service.Signing.{SigningService}
use vcalm_status_service.Signing.Fake.{fake_signing}
use vcalm_status_service.Signing.Local.{local_signing}
use vcalm_status_service.Signing.Http.{Remote, http_issuer_did, http_sign}
use vcalm_status_service.Storage.{StorageService}
use vcalm_status_service.Storage.Memory.{memory_storage}
use vcalm_status_service.Storage.Schema.{Columns}
use vcalm_status_service.Storage.Sql.{sql_storage}
use vcalm_status_service.Config.{Config, StorageConfig, SigningConfig, TenantRegistryMode}

-- The manager, `statusLists`, is made of these and of the public base URL.
pub record Services : Type 1 where
  pub storage : StorageService
  pub signing : SigningService
  pub tenants : TenantRegistry
  pub public_base_url : String

-- What lies outside the process: the texts of a database's columns, the digests of the fake and of the local signer, the signature
-- libraries, the remote signer, the credential that JSON is taken for, and how `localeCompare` orders texts.
pub record Platform : Type 1 where
  pub columns : Columns
  pub fake_digest : UnsignedCredential → String
  pub libraries : SignatureLibraries
  pub key_digest : Json → String
  pub remote : Remote
  pub credential_of : Fields → VerifiableCredential
  pub locale_le : String → String → Bool

module _ (platform : Platform) where
  unfoldable pub create_storage : StorageConfig → StorageService
  create_storage StorageConfig.memory = memory_storage
  create_storage (StorageConfig.sqlite file) = sql_storage platform.columns
  create_storage (StorageConfig.postgres url) = sql_storage platform.columns

  -- `HttpSigningService` as a signing service.
  abbrev http_signing : String → SigningService
  http_signing url = record {
    State = platform.remote.State;
    issuer_did = λ i. lift (http_issuer_did i);
    sign = λ i u.
        http_sign platform.remote url i u then λ fields. pure (platform.credential_of fields);
  }

  unfoldable pub create_signing : SigningConfig → SigningService
  create_signing SigningConfig.fake = fake_signing platform.fake_digest
  create_signing SigningConfig.local = local_signing platform.libraries platform.key_digest
  create_signing (SigningConfig.http url) = http_signing url

  unfoldable pub create_tenant_registry : TenantRegistryMode → Env → Result MemoryTenantRegistry
  create_tenant_registry TenantRegistryMode.memory vars = ok empty_registry
  create_tenant_registry TenantRegistryMode.env vars = env_registry platform.locale_le vars

  unfoldable pub create_services : Config → Env → Result Services
  create_services config vars = do
    registry ← create_tenant_registry config.tenant_registry vars
    ok (record {
      storage = create_storage config.storage;
      signing = create_signing config.signing;
      tenants = memory_tenants registry;
      public_base_url = config.public_base_url;
    })
