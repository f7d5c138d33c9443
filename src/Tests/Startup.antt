-- ===== src/Tests/Startup.antt =====
-- A configuration for production, and the services that it selects.
use vcalm_status_service.Common.{
  ℕ, String, ◌≡◌, ◌≢◌, ◌≤◌, refl, Bool, true, false, Option, none, some, [], ◌∷◌, contains, any,
  any-Member, Bool, false, string_eq,
}
use vcalm_status_service.Common.Text.{decimal}
use vcalm_status_service.Common.Ascii.{trim}
use vcalm_status_service.Errors.{ok, err, zod_error}
use vcalm_status_service.Tenants.{TenantRecord}
use vcalm_status_service.Tenants.Memory.{
  MemoryTenantRegistry, add, add_all, empty_registry, memory_tenants,
}
use vcalm_status_service.Tenants.Env.{
  Env, list, parse_issuer_instances, instances_from, parse_tenant, parse_entries,
  parse_tenants_from_env, env_registry,
}
use vcalm_status_service.Config.{
  production, info, StorageConfig, SigningConfig, TenantRegistryMode, Config, without_empty_values,
  parse_values, strip_trailing_slash, config_of, parse_config,
}
use vcalm_status_service.Config.Production.{ends_in_slash, parse_config_production}
use vcalm_status_service.Config.Values.{parse_config_bounds}
use vcalm_status_service.Services.{
  Services, Platform, create_storage, create_signing, create_tenant_registry, create_services,
}
use vcalm_status_service.Json.{null}
use vcalm_status_service.Auth.{bearer_token, bearer_token_of}
use vcalm_status_service.App.{post, Request}
use vcalm_status_service.App.Handle.{AppState, Outer}
use vcalm_status_service.Server.{start, serve}
use vcalm_status_service.Server.Access.{serve_refuses}
use vcalm_status_service.Tests.Columns.{columns}
use vcalm_status_service.Tests.Bits.{bits}
use vcalm_status_service.Tests.Sample.{deps}
use vcalm_status_service.Tests.Signers.{libs, remote, issued}

abbrev vars : Env
vars =
    ("NODE_ENV", "production")
    ∷ ("PUBLIC_BASE_URL", "https://status.example//")
    ∷ ("LOG_LEVEL", " ")
    ∷ ("STORAGE_MODE", "postgres")
    ∷ ("DATABASE_URL", "postgres://db")
    ∷ ("SIGNING_MODE", "local")
    ∷ ("TENANT_REGISTRY_MODE", "env")
    ∷ ("TENANT_TOKEN_ACME", "t1")
    ∷ []

abbrev integer : String → Option ℕ
integer s = none

abbrev is_url : String → Bool
is_url s = true

abbrev config : Config
config = record {
  node_env = production;
  port = 4008;
  public_base_url = "https://status.example";
  log_level = info;
  storage = StorageConfig.postgres "postgres://db";
  signing = SigningConfig.local;
  tenant_registry = TenantRegistryMode.env;
  access_jwt_secret = none;
}

config_read : parse_config integer is_url vars ≡ ok config
unfolding parse_config without_empty_values parse_values config_of strip_trailing_slash trim
config_read = refl

parse_config_production_example :
    (SigningConfig.local ≢ SigningConfig.fake)
    × (StorageConfig.postgres "postgres://db" ≢ StorageConfig.memory)
    × ◌≡◌ {A = TenantRegistryMode} TenantRegistryMode.env TenantRegistryMode.env
parse_config_production_example = parse_config_production integer is_url vars config_read refl

parse_config_bounds_example :
    (1 ≤ 4008) × (4008 ≤ 65535) × (ends_in_slash "https://status.example" ≡ false)
parse_config_bounds_example = parse_config_bounds integer is_url vars config_read

abbrev pub platform : Platform
platform = record {
  columns = columns;
  fake_digest = λ u. "00";
  libraries = libs;
  key_digest = λ k. "00";
  remote = remote;
  credential_of = λ fields. issued;
  locale_le = λ a b. true;
}

abbrev tenant : TenantRecord
tenant = record {
  tenant_id = "acme";
  tokens = "t1" ∷ [];
  issuer_instances = [];
  default_instance_id = none;
  authorized_domains = none;
}

abbrev services : Config → MemoryTenantRegistry → Services
services c m = record {
  storage = create_storage platform c.storage;
  signing = create_signing platform c.signing;
  tenants = memory_tenants m;
  public_base_url = c.public_base_url;
}

registry : MemoryTenantRegistry
registry = (add tenant empty_registry).1

services_made : create_services platform config vars ≡ ok (services config registry)
unfolding create_services create_tenant_registry env_registry parse_tenants_from_env parse_entries
    parse_tenant parse_issuer_instances instances_from add_all add registry decimal trim
services_made = refl

start_ok : start integer is_url platform vars ≡ ok (config, services config registry)
unfolding start
start_ok = rw (config_read, services_made) refl

abbrev outer : Outer (services config registry)
outer = record {
  hono = record { matches = λ pattern path. some ""; is_preflight = λ r. false };
  verify = λ token secret. none;
  parse_url = λ s. none;
  decode_uri_component = λ s. none;
  bits = bits;
  ping = λ s. ok tt;
  create_schema = λ j. err zod_error;
  update_schema = λ j. err zod_error;
  credential_schema = λ j. err zod_error;
  wrapped_schema = λ j. err zod_error;
}

-- A request with a token that is in no variable.
abbrev stranger : Request
stranger = record {
  method = post;
  path = "/status-lists";
  request_id = none;
  authorization = some "Bearer t9";
  hosts = record { forwarded_host = none; host = none; url = "" };
  if_none_match = none;
  accept = none;
  json = ok null;
}

brought : bearer_token stranger.authorization ≡ some "t9"
unfolding bearer_token_of trim
brought = refl

abbrev lists_stranger : String × String → Bool
lists_stranger (name, value) = contains "t9" (list (some value))

unlisted : any lists_stranger vars ≡ false
unfolding trim
unlisted = refl

state : AppState (services config registry)
unfolding create_storage create_signing
state = record {
  world = (record { status_lists = []; index_allocations = [] }, record { signer = []; draws = 0 });
  log = [];
}

serve_refuses_example :
    (serve config (services config registry) outer deps "fresh" stranger state).1.world
    ≡ state.world
serve_refuses_example =
    serve_refuses integer is_url platform vars start_ok refl refl outer deps "fresh" stranger state
      "t9" brought (λ name value set. any-Member lists_stranger vars unlisted set)
