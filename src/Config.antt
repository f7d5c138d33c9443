-- ===== src/Config.antt =====
-- service/src/config.ts: the configuration, read once from the environment. `integer` is how the
-- package zod reads an integer from a text (none for a negative one, which the bounds refuse too), and
-- `is_url` is its test of a URL.
pub mod Production
pub mod Values
use Prim.Native.Char.{code}
use Prim.Native.String
use vcalm_status_service.Common.{
  ℕ, String, Bool, true, false, not, ◌&&◌, Option, none, some, List, [], ◌∷◌, ◌==◌, string_eq,
  nat_eq, if◌then◌else◌, get_or, filter, leb,
}
use vcalm_status_service.Common.Dict
use vcalm_status_service.Common.Dict.{Dict}
use vcalm_status_service.Common.Text.{◌⧺◌, decimal}
use vcalm_status_service.Common.Ascii.{trim}
use vcalm_status_service.Errors.{Result, ok, err, Action, config_error}
use vcalm_status_service.Errors.Results.{◌>>=◌, ◌>>◌, refuse_if, found_or}
use vcalm_status_service.Tenants.Env.{Env}

pub data NodeEnv : Type 0 where
  development test production : NodeEnv

pub data LogLevel : Type 0 where
  debug info warn error : LogLevel

pub data StorageMode : Type 0 where
  memory sqlite postgres : StorageMode

pub data SigningMode : Type 0 where
  fake local http : SigningMode

pub data TenantRegistryMode : Type 0 where
  memory env : TenantRegistryMode

pub data SigningConfig : Type 0 where
  fake local : SigningConfig
  http : (url : String) → SigningConfig

pub data StorageConfig : Type 0 where
  memory : StorageConfig
  sqlite : (file : String) → StorageConfig
  postgres : (url : String) → StorageConfig

pub record Config : Type 0 where
  pub node_env : NodeEnv
  pub port : ℕ
  pub public_base_url : String
  pub log_level : LogLevel
  pub storage : StorageConfig
  pub signing : SigningConfig
  pub tenant_registry : TenantRegistryMode
  pub access_jwt_secret : Option String

-- `DEFAULT_PORT` and `DEFAULT_SQLITE_FILE`
abbrev pub default_port : ℕ
default_port = 4008

abbrev pub default_sqlite_file : String
default_sqlite_file = "./data/status-lists.db"

unfoldable pub without_empty_values : Env → Env
without_empty_values [] = []
without_empty_values ((key, value) ∷ entries) =
    let rest = without_empty_values entries in
    if trim value == "" then rest else (key, value) ∷ rest

-- `EnvValues`
pub record EnvValues : Type 0 where
  pub node_env : NodeEnv
  pub port : ℕ
  pub public_base_url : Option String
  pub log_level : LogLevel
  pub storage_mode : StorageMode
  pub sqlite_file : String
  pub database_url : Option String
  pub signing_mode : SigningMode
  pub signing_service_url : Option String
  pub tenant_registry_mode : TenantRegistryMode
  pub access_jwt_secret : Option String

-- `z.enum(table).default(d)`
abbrev pub one_of : {A : Type 0} → Dict A → A → Option String → Result A
one_of table d none = ok d
one_of table d (some value) = found_or (Dict.get value table) config_error

-- `z.string().min(1).optional()`
abbrev pub nonempty : Option String → Result (Option String)
nonempty none = ok none
nonempty (some value) = refuse_if (value == "") config_error >> ok (some value)

abbrev pub node_envs : Dict NodeEnv
node_envs = ("development", development) ∷ ("test", test) ∷ ("production", production) ∷ []

abbrev pub log_levels : Dict LogLevel
log_levels = ("debug", debug) ∷ ("info", info) ∷ ("warn", warn) ∷ ("error", error) ∷ []

abbrev pub storage_modes : Dict StorageMode
storage_modes =
    ("memory", StorageMode.memory)
    ∷ ("sqlite", StorageMode.sqlite)
    ∷ ("postgres", StorageMode.postgres)
    ∷ []

abbrev pub signing_modes : Dict SigningMode
signing_modes =
    ("fake", SigningMode.fake) ∷ ("local", SigningMode.local) ∷ ("http", SigningMode.http) ∷ []

abbrev pub registry_modes : Dict TenantRegistryMode
registry_modes = ("memory", TenantRegistryMode.memory) ∷ ("env", TenantRegistryMode.env) ∷ []

module _ (integer : String → Option ℕ) (is_url : String → Bool) where
  -- `z.string().url().optional()`
  abbrev pub url : Option String → Result (Option String)
  url none = ok none
  url (some value) = refuse_if (not (is_url value)) config_error >> ok (some value)

  -- `z.coerce.number().int().min(1).max(65535).default(DEFAULT_PORT)`
  abbrev pub port_of : Option String → Result ℕ
  port_of none = ok default_port
  port_of (some value) = do
    n ← found_or (integer value) config_error
    refuse_if (not (leb 1 n && leb n 65535)) config_error
    ok n

  -- `envSchema.safeParse`
  unfoldable pub parse_values : Env → Result EnvValues
  parse_values vars = do
    node_env ← one_of node_envs development (Dict.get "NODE_ENV" vars)
    port ← port_of (Dict.get "PORT" vars)
    public_base_url ← url (Dict.get "PUBLIC_BASE_URL" vars)
    log_level ← one_of log_levels info (Dict.get "LOG_LEVEL" vars)
    storage_mode ← one_of storage_modes StorageMode.memory (Dict.get "STORAGE_MODE" vars)
    sqlite_file ← nonempty (Dict.get "SQLITE_FILE" vars)
    database_url ← nonempty (Dict.get "DATABASE_URL" vars)
    signing_mode ← one_of signing_modes SigningMode.fake (Dict.get "SIGNING_MODE" vars)
    signing_service_url ← url (Dict.get "SIGNING_SERVICE_URL" vars)
    tenant_registry_mode ←
        one_of registry_modes TenantRegistryMode.memory (Dict.get "TENANT_REGISTRY_MODE" vars)
    access_jwt_secret ← nonempty (Dict.get "ACCESS_JWT_SECRET" vars)
    ok (record {
      node_env = node_env;
      port = port;
      public_base_url = public_base_url;
      log_level = log_level;
      storage_mode = storage_mode;
      sqlite_file = get_or sqlite_file default_sqlite_file;
      database_url = database_url;
      signing_mode = signing_mode;
      signing_service_url = signing_service_url;
      tenant_registry_mode = tenant_registry_mode;
      access_jwt_secret = access_jwt_secret;
    })

-- `parseStorage`
abbrev pub parse_storage : StorageMode → String → Option String → Result StorageConfig
parse_storage StorageMode.memory file database_url = ok StorageConfig.memory
parse_storage StorageMode.sqlite file database_url = ok (StorageConfig.sqlite file)
parse_storage StorageMode.postgres file none = err config_error
parse_storage StorageMode.postgres file (some database_url) =
    ok (StorageConfig.postgres database_url)

-- `parseSigning`
abbrev pub parse_signing : SigningMode → Option String → Result SigningConfig
parse_signing SigningMode.fake service_url = ok SigningConfig.fake
parse_signing SigningMode.local service_url = ok SigningConfig.local
parse_signing SigningMode.http none = err config_error
parse_signing SigningMode.http (some service_url) = ok (SigningConfig.http service_url)

-- `url.replace(/\/+$/, '')`
unfoldable pub strip_trailing_slash : String → String
strip_trailing_slash String.[] = ""
strip_trailing_slash (String.◌∷◌ c s) =
    let rest = strip_trailing_slash s in
    if rest == "" && code c == b'/' then "" else String.◌∷◌ c rest

-- What production refuses: a signer without a proof, a storage that forgets, a registry that knows
-- nobody.
abbrev pub unfit : NodeEnv → SigningMode → StorageMode → TenantRegistryMode → Bool
unfit production SigningMode.fake storage tenants = true
unfit production signing StorageMode.memory tenants = true
unfit production signing storage TenantRegistryMode.memory = true
unfit _ _ _ _ = false

unfoldable pub config_of : EnvValues → Result Config
config_of values = do
  refuse_if
      (unfit values.node_env values.signing_mode values.storage_mode values.tenant_registry_mode)
      config_error
  storage ← parse_storage values.storage_mode values.sqlite_file values.database_url
  signing ← parse_signing values.signing_mode values.signing_service_url
  ok (record {
    node_env = values.node_env;
    port = values.port;
    public_base_url =
        strip_trailing_slash
          (get_or values.public_base_url ("http://localhost:" ⧺ decimal values.port));
    log_level = values.log_level;
    storage = storage;
    signing = signing;
    tenant_registry = values.tenant_registry_mode;
    access_jwt_secret = values.access_jwt_secret;
  })

abbrev pub kept : Result Config → Result Config × Option Config
kept (ok config) = (ok config, some config)
kept (err e) = (err e, none)

module _ (integer : String → Option ℕ) (is_url : String → Bool) where
  unfoldable pub parse_config : Env → Result Config
  parse_config vars = parse_values integer is_url (without_empty_values vars) >>= config_of

  -- `getConfig`, on the configuration that is kept, if there is one.
  unfoldable pub get_config : Env → Action (Option Config) Config
  get_config vars (some config) = (ok config, some config)
  get_config vars none = kept (parse_config vars)

-- `resetConfig`
unfoldable pub reset_config : Option Config → Option Config
reset_config cached = none
