-- ===== src/Services/Selects.antt =====
-- What the services that service/src/services/index.ts selects keep to.
use mathlib.Core.Path.{subst}
use vcalm_status_service.Common.{
  ℕ, String, ◌≡◌, refl, sym, ap, ◌∙◌, Bool, true, Option, none, some, ◌==◌, string_eq, contains,
  Member, Bool-cases, inl, inr,
}
use vcalm_status_service.Common.Text.{◌⧺◌}
use vcalm_status_service.Common.Ascii.{lower_case}
use vcalm_status_service.Json.{Json}
use vcalm_status_service.Errors.{Result, ok, err, problem_error}
use vcalm_status_service.Errors.Results.{>>=-eq-ok}
use vcalm_status_service.Tenants.{TenantRecord}
use vcalm_status_service.Tenants.Memory.{
  MemoryTenantRegistry, empty_registry, memory_tenants, get_tenant, get_tenant_by_token,
}
use vcalm_status_service.Tenants.Env.{Env, list}
use vcalm_status_service.Tenants.Env.Registry.{env_registry_only}
use vcalm_status_service.Auth.{tenant_auth}
use vcalm_status_service.Auth.Bearer.{tenant_auth_empty}
use vcalm_status_service.Storage.Contract.{Contract}
use vcalm_status_service.Storage.Memory.Refines.{memory_storage-Contract}
use vcalm_status_service.Storage.Sql.Refines.{sql_storage-Contract}
use vcalm_status_service.Config.{
  Config, StorageConfig, TenantRegistryMode, production, parse_config,
}
use vcalm_status_service.Config.Production.{parse_config_production}
use vcalm_status_service.Services.{
  Services, Platform, create_storage, create_signing, create_tenant_registry, create_services,
}

create_storage-Contract :
    (platform : Platform) (c : StorageConfig) → Contract (create_storage platform c)
unfolding create_storage
create_storage-Contract platform StorageConfig.memory = memory_storage-Contract
create_storage-Contract platform (StorageConfig.sqlite file) = sql_storage-Contract platform.columns
create_storage-Contract platform (StorageConfig.postgres url) =
    sql_storage-Contract platform.columns

module _ (platform : Platform) (config : Config) (vars : Env) (s : Services)
    (made : create_services platform config vars ≡ ok s) where
  selected :
      (m : MemoryTenantRegistry) × (create_tenant_registry platform config.tenant_registry vars
        ≡ ok m)
      × (s ≡ record {
        storage = create_storage platform config.storage;
        signing = create_signing platform config.signing;
        tenants = memory_tenants m;
        public_base_url = config.public_base_url;
      })
  unfolding create_services
  selected =
      let (m, read, rest) =
        >>=-eq-ok (create_tenant_registry platform config.tenant_registry vars) _ made in
      (m, read, cc (sym rest))

  -- The storage that the services are given keeps the storage contract, in every storage mode.
  pub create_services-Contract : Contract s.storage
  create_services-Contract =
      let (m, _, same) = selected in
      subst (λ (x : Services). Contract x.storage) (sym same)
        (create_storage-Contract platform config.storage)

  -- With the registry in memory, the services that are selected refuse every caller with 401,
  -- whatever secret and header it is given.
  pub create_services_memory :
      config.tenant_registry ≡ TenantRegistryMode.memory
      → (verify : String → String → Option Json) (secret header : Option String)
      → tenant_auth verify s.tenants secret header ≡ err (problem_error 401)
  unfolding create_tenant_registry get_tenant get_tenant_by_token
  create_services_memory memory verify secret header =
      let (m, read, same) = selected in
      let empty : ◌≡◌ {A = Result MemoryTenantRegistry} (ok empty_registry) (ok m) =
        sym (ap (λ r. create_tenant_registry platform r vars) memory) ∙ read in
      let is_empty : empty_registry ≡ m = cc in
      subst (λ (x : Services). tenant_auth verify x.tenants secret header ≡ err (problem_error 401))
        (sym same)
        (subst (λ n. tenant_auth verify (memory_tenants n) secret header ≡ err (problem_error 401))
          is_empty
          (tenant_auth_empty verify (memory_tenants empty_registry) (λ id. refl) no_token secret
            header))
    where
      no_token : (token : String) → get_tenant_by_token empty_registry token ≡ none
      no_token token = elim (Bool-cases (token == "")) [ inl e ↦ rw e refl | inr e ↦ rw e refl ]

  -- Where a configuration is accepted from the environment with production as its node environment,
  -- and its services are made from the same environment, a token that gives a tenant is listed in a
  -- variable TENANT_TOKEN_<name> of that environment, and the tenant's id is that name in lower
  -- case.
  pub create_services_production :
      (integer : String → Option ℕ) (is_url : String → Bool)
      → parse_config integer is_url vars ≡ ok config
      → config.node_env ≡ production
      → (token : String) {t : TenantRecord} → s.tenants.get_tenant_by_token token ≡ some t
      → (name value : String) × Member ("TENANT_TOKEN_" ⧺ name, value) vars
        × (contains token (list (some value)) ≡ true)
        × (lower_case name ≡ t.tenant_id)
  unfolding create_tenant_registry
  create_services_production integer is_url accepted prod token {t} found =
      let (m, read, same) = selected in
      let (_, _, from_env) = parse_config_production integer is_url vars accepted prod in
      env_registry_only platform.locale_le vars
        (sym (ap (λ r. create_tenant_registry platform r vars) from_env) ∙ read) token
        (subst (λ (x : Services). x.tenants.get_tenant_by_token token ≡ some t) same found)
