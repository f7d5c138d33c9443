-- ===== src/Tenants/Env.antt =====
-- service/src/services/tenants-env.ts: tenants from environment variables. An environment is the list
-- of its variables that are set, in the order of `Object.entries`. `locale_le` is what a comparison
-- by `localeCompare` says: that the first text does not stand after the second.
pub mod Gaps
pub mod Instances
pub mod Default
pub mod Tokens
pub mod Entries
pub mod Registry
use vcalm_status_service.Common.{
  ℕ, zero, suc, ◌+◌, String, Bool, true, false, not, ◌&&◌, ◌||◌, Option, none, some, List, [], ◌∷◌,
  ◌++◌, map, ◌==◌, string_eq, nat_eq, if◌then◌else◌, get_or, is_some, any, filter, length,
}
use vcalm_status_service.Common.Dict
use vcalm_status_service.Common.Dict.{Dict}
use vcalm_status_service.Common.Text.{◌⧺◌, decimal}
use vcalm_status_service.Common.Ascii.{lower_case, upper_case, trim, split}
use vcalm_status_service.Common.Prefix.{strip_prefix}
use vcalm_status_service.Errors.{Result, ok, err, Error, tenant_env_error, plain_error}
use vcalm_status_service.Errors.Results.{◌>>=◌, ◌>>◌, refuse_if, found_or}
use vcalm_status_service.VcSigner.{
  Cryptosuite, DidMethod, KeyMaterial, ed25519_seed, multikey, supported_cryptosuite,
}
use vcalm_status_service.Tenants.{IssuerInstance, TenantRecord, TenantRegistry}
use vcalm_status_service.Tenants.Memory.{
  MemoryTenantRegistry, empty_registry, add_all, memory_tenants,
}

abbrev pub Env : Type 0
Env = Dict String

-- `list`
abbrev pub list : Option String → List String
list none = []
list (some value) = filter (λ entry. not (entry == "")) (map trim (split b',' value))

-- `value?.trim()`
abbrev pub trimmed : Option String → Option String
trimmed none = none
trimmed (some value) = some (trim value)

abbrev pub unless_empty : String → Option String
unless_empty value = if value == "" then none else some value

-- A variable that is blank counts as unset.
abbrev pub unless_blank : Option String → Option String
unless_blank none = none
unless_blank (some value) = unless_empty (trim value)

abbrev pub issuer_key : ℕ → String → String → String
issuer_key n field suffix = "TENANT_ISSUER_" ⧺ decimal n ⧺ "_" ⧺ field ⧺ "_" ⧺ suffix

-- `at`, in the round of instance n
abbrev pub at : Env → ℕ → String → String → Option String
at env n suffix field = unless_blank (Dict.get (issuer_key n field suffix) env)

unfoldable pub parse_cryptosuite : Option String → Result Cryptosuite
parse_cryptosuite raw =
    found_or (supported_cryptosuite (get_or (trimmed raw) "eddsa-rdfc-2022")) tenant_env_error

unfoldable pub parse_did_method : Option String → Result DidMethod
parse_did_method raw =
    let value = get_or (trimmed raw) "key" in
    if value == "key"
    then ok DidMethod.key
    else if value == "web"
    then ok DidMethod.web
    else err tenant_env_error

-- A text that is there and not empty, as a test of a value in JavaScript takes it.
abbrev pub truthy : Option String → Option String
truthy none = none
truthy (some value) = unless_empty value

abbrev pub material : Option String → Option String → Option String → Result (Option KeyMaterial)
material (some seed) none none = ok (some (ed25519_seed seed))
material (some seed) (some _) _ = err tenant_env_error
material (some seed) none (some _) = err tenant_env_error
material none (some public) (some secret) = ok (some (multikey public secret))
material none (some _) none = err tenant_env_error
material none none (some _) = err tenant_env_error
material none none none = ok none

unfoldable pub parse_key_material :
    Option String → Option String → Option String → Result (Option KeyMaterial)
parse_key_material seed public secret = material (truthy seed) (truthy public) (truthy secret)

abbrev pub needs_url : DidMethod → Bool
needs_url DidMethod.key = false
needs_url DidMethod.web = true

-- The body of the loop of `parseIssuerInstances`, for the instance with an id.
unfoldable pub parse_instance :
    Env → String → ℕ → List IssuerInstance → String → Result IssuerInstance
parse_instance env tenant_id n instances id =
    let field = at env n (upper_case tenant_id) in
    do
      did_method ← parse_did_method (field "DID_METHOD")
      refuse_if (needs_url did_method && not (is_some (field "DID_URL"))) tenant_env_error
      key_material ← parse_key_material (field "SEED") (field "PUBLIC_KEY") (field "SECRET_KEY")
      refuse_if (any (λ i. i.id == id) instances) tenant_env_error
      cryptosuite ← parse_cryptosuite (field "CRYPTOSUITE")
      ok (record {
        id = id;
        cryptosuite = cryptosuite;
        did_method = did_method;
        did_url = field "DID_URL";
        key_material = key_material;
        signing_service_tenant = some (get_or (field "SIGNING_TENANT") tenant_id);
        signing_service_token = field "SIGNING_TOKEN";
        issuer_did = field "ISSUER_DID";
      })

abbrev Round : Type 0
Round = List IssuerInstance → Option (Result (List IssuerInstance))

abbrev pub push :
    Round → List IssuerInstance → Result IssuerInstance → Option (Result (List IssuerInstance))
push next instances (ok i) = next (instances ++ i ∷ [])
push next instances (err e) = some (err e)

abbrev pub round :
    Env
    → String
    → ℕ
    → Round
    → List IssuerInstance
    → Option String
    → Option (Result (List IssuerInstance))
round env tenant_id n next instances none = some (ok instances)
round env tenant_id n next instances (some id) =
    push next instances (parse_instance env tenant_id n instances id)

-- The loop of `parseIssuerInstances` from n on, by the rounds that it may take: `none` is a loop
-- that has not ended by then.
unfoldable pub instances_from :
    ℕ → Env → String → ℕ → List IssuerInstance → Option (Result (List IssuerInstance))
instances_from zero env tenant_id n instances = none
instances_from (suc rounds) env tenant_id n instances =
    round env tenant_id n (instances_from rounds env tenant_id (suc n)) instances
      (at env n (upper_case tenant_id) "ID")

unfoldable pub parse_issuer_instances : Env → String → Result (List IssuerInstance)
parse_issuer_instances env tenant_id =
    get_or (instances_from (suc (length env)) env tenant_id 1 []) (err plain_error)

-- `defaultInstanceId && !issuerInstances.some(...)`
abbrev pub unknown_default : Option String → List IssuerInstance → Bool
unknown_default none instances = false
unknown_default (some wanted) instances =
    not (wanted == "") && not (any (λ i. i.id == wanted) instances)

abbrev pub unless_nil : List String → Option (List String)
unless_nil [] = none
unless_nil (x ∷ xs) = some (x ∷ xs)

-- The body of the loop of `parseTenantsFromEnv`, for the key `TENANT_TOKEN_<name>`.
unfoldable pub parse_tenant : Env → String → String → Result TenantRecord
parse_tenant env name value =
    let tenant_id = lower_case name in
    let suffix = upper_case tenant_id in
    let tokens = list (some value) in
    let default_instance_id = trimmed (Dict.get ("TENANT_DEFAULT_INSTANCE_" ⧺ suffix) env) in
    do
      refuse_if (length tokens == 0) tenant_env_error
      instances ← parse_issuer_instances env tenant_id
      refuse_if (unknown_default default_instance_id instances) tenant_env_error
      ok (record {
        tenant_id = tenant_id;
        tokens = tokens;
        issuer_instances = instances;
        default_instance_id = default_instance_id;
        authorized_domains = unless_nil (list (Dict.get ("TENANT_DOMAINS_" ⧺ suffix) env));
      })

abbrev pub parse_entry :
    Env → String → Option String → Result (List TenantRecord) → Result (List TenantRecord)
parse_entry env value none rest = rest
parse_entry env value (some name) rest = do
  tenant ← parse_tenant env name value
  tenants ← rest
  ok (tenant ∷ tenants)

-- The loop of `parseTenantsFromEnv` over the entries that are left.
unfoldable pub parse_entries : Env → Env → Result (List TenantRecord)
parse_entries env [] = ok []
parse_entries env ((key, value) ∷ entries) =
    parse_entry env value (strip_prefix "TENANT_TOKEN_" key) (parse_entries env entries)

-- The constructor of `MemoryTenantRegistry`.
abbrev pub constructed : Result (Unit {0}) × MemoryTenantRegistry → Result MemoryTenantRegistry
constructed (ok _, m) = ok m
constructed (err e, m) = err e

module _ (locale_le : String → String → Bool) where
  abbrev pub insert_by_id : TenantRecord → List TenantRecord → List TenantRecord
  insert_by_id t [] = t ∷ []
  insert_by_id t (x ∷ xs) =
      if locale_le t.tenant_id x.tenant_id then t ∷ x ∷ xs else x ∷ insert_by_id t xs

  -- `tenants.sort(...)`, which is stable
  abbrev pub sort_by_id : List TenantRecord → List TenantRecord
  sort_by_id [] = []
  sort_by_id (t ∷ ts) = insert_by_id t (sort_by_id ts)

  unfoldable pub parse_tenants_from_env : Env → Result (List TenantRecord)
  parse_tenants_from_env env = do tenants ← parse_entries env env; ok (sort_by_id tenants)

  -- The constructor of `EnvTenantRegistry`.
  unfoldable pub env_registry : Env → Result MemoryTenantRegistry
  env_registry env = do
    tenants ← parse_tenants_from_env env
    constructed (add_all tenants empty_registry)
