-- ===== src/Tests/Env.antt =====
-- Tenants, configuration and services from a sample environment.
use vcalm_status_service.Common.{
  String, ◌≡◌, refl, Bool, true, none, some, [], ◌∷◌, arith, inl, string_eq, All, Member, contains,
}
use vcalm_status_service.Common.Text.{◌⧺◌, decimal}
use vcalm_status_service.Common.Ascii.{lower_case, trim}
use vcalm_status_service.Errors.{ok}
use vcalm_status_service.VcSigner.{eddsa_rdfc_2022, DidMethod, ed25519_seed}
use vcalm_status_service.Tenants.{IssuerInstance, TenantRecord, resolve_issuer_instance}
use vcalm_status_service.Tenants.Memory.{
  MemoryTenantRegistry, add, add_all, empty_registry, get_tenant_by_token,
}
use vcalm_status_service.Tenants.Env.{
  Env, list, parse_cryptosuite, parse_did_method, parse_key_material, parse_instance,
  instances_from, parse_issuer_instances, parse_tenant, parse_entries, parse_tenants_from_env,
  env_registry,
}
use vcalm_status_service.Tenants.Env.Gaps.{instances_from-ends}
use vcalm_status_service.Tenants.Env.Instances.{IsUsable, Distinct, parse_issuer_instances-IsUsable}
use vcalm_status_service.Tenants.Env.Default.{parse_tenant_blank_default}
use vcalm_status_service.Tenants.Env.Registry.{env_registry_knows, env_registry_only}

abbrev variables : String → Env
variables default =
    ("TENANT_TOKEN_ACME", "t1, t2")
    ∷ ("TENANT_DEFAULT_INSTANCE_ACME", default)
    ∷ ("TENANT_ISSUER_1_ID_ACME", "one")
    ∷ ("TENANT_ISSUER_1_SEED_ACME", "z1")
    ∷ []

abbrev one : IssuerInstance
one = record {
  id = "one";
  cryptosuite = eddsa_rdfc_2022;
  did_method = DidMethod.key;
  did_url = none;
  key_material = some (ed25519_seed "z1");
  signing_service_tenant = some "acme";
  signing_service_token = none;
  issuer_did = none;
}

abbrev acme : String → TenantRecord
acme default = record {
  tenant_id = "acme";
  tokens = "t1" ∷ "t2" ∷ [];
  issuer_instances = one ∷ [];
  default_instance_id = some default;
  authorized_domains = none;
}

abbrev le : String → String → Bool
le a b = true

one_read : (default : String) → parse_issuer_instances (variables default) "acme" ≡ ok (one ∷ [])
unfolding parse_issuer_instances instances_from parse_instance parse_did_method parse_key_material
    parse_cryptosuite trim decimal
one_read default = refl

acme_read : parse_tenant (variables "one") "ACME" "t1, t2" ≡ ok (acme "one")
unfolding parse_tenant parse_issuer_instances instances_from parse_instance parse_did_method
    parse_key_material parse_cryptosuite trim decimal
acme_read = refl

blank_read : parse_tenant (variables " ") "ACME" "t1, t2" ≡ ok (acme "")
unfolding parse_tenant parse_issuer_instances instances_from parse_instance parse_did_method
    parse_key_material parse_cryptosuite trim decimal
blank_read = refl

registry : MemoryTenantRegistry
registry = (add (acme "one") empty_registry).1

registry_made : env_registry le (variables "one") ≡ ok registry
unfolding env_registry parse_tenants_from_env parse_entries parse_tenant parse_issuer_instances
    instances_from parse_instance parse_did_method parse_key_material parse_cryptosuite trim decimal
    add_all add registry
registry_made = refl

instances_from-ends_example :
    instances_from 9 (variables "one") "acme" 1 []
    ≡ some (parse_issuer_instances (variables "one") "acme")
instances_from-ends_example = instances_from-ends (variables "one") "acme" 9 (omega arith)

parse_issuer_instances-IsUsable_example : All IsUsable (one ∷ []) × Distinct (one ∷ [])
parse_issuer_instances-IsUsable_example =
    parse_issuer_instances-IsUsable (variables "one") "acme" (one_read "one")

parse_tenant_blank_default_example : resolve_issuer_instance (acme "") none ≡ none
unfolding trim
parse_tenant_blank_default_example =
    parse_tenant_blank_default (variables " ") "ACME" "t1, t2" blank_read " " refl refl

env_registry_knows_example :
    (t : TenantRecord) × (get_tenant_by_token registry "t2" ≡ some t)
    × (t.tenant_id ≡ lower_case "ACME")
unfolding trim
env_registry_knows_example =
    env_registry_knows le (variables "one") registry_made "ACME" "t1, t2" "t2" (inl refl) refl

token_known : get_tenant_by_token registry "t1" ≡ some (acme "one")
unfolding registry add get_tenant_by_token
token_known = refl

env_registry_only_example :
    (name value : String) × Member ("TENANT_TOKEN_" ⧺ name, value) (variables "one")
    × (contains "t1" (list (some value)) ≡ true)
    × (lower_case name ≡ "acme")
env_registry_only_example = env_registry_only le (variables "one") registry_made "t1" token_known
