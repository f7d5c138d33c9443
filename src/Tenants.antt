-- ===== src/Tenants.antt =====
-- service/src/services/tenants.ts and issuer-instance.ts: tenants, issuer instances and the
-- registry's interface. The registry is only read.
pub mod Memory
pub mod Env
use vcalm_status_service.Common.{
  String, Bool, Option, none, some, List, [], ◌∷◌, find, ◌==◌, string_eq,
}
use vcalm_status_service.VcSigner.{Cryptosuite, DidMethod, KeyMaterial}

pub record IssuerInstance : Type 0 where
  pub id : String
  pub cryptosuite : Cryptosuite
  pub did_method : DidMethod
  pub did_url : Option String
  pub key_material : Option KeyMaterial
  pub signing_service_tenant : Option String
  pub signing_service_token : Option String
  pub issuer_did : Option String

pub record TenantRecord : Type 0 where
  pub tenant_id : String
  pub tokens : List String
  pub issuer_instances : List IssuerInstance
  pub default_instance_id : Option String
  pub authorized_domains : Option (List String)

pub record TenantRegistry : Type 0 where
  pub get_tenant : String → Option TenantRecord
  pub get_tenant_by_token : String → Option TenantRecord

-- `instances.length === 1 ? instances[0] : undefined`
abbrev only_instance : List IssuerInstance → Option IssuerInstance
only_instance (x ∷ []) = some x
only_instance _ = none

abbrev find_instance : Option String → List IssuerInstance → Option IssuerInstance
find_instance none xs = only_instance xs
find_instance (some wanted) xs = find (λ x. x.id == wanted) xs

-- `a ?? b` of two optional values
abbrev or_else : Option String → Option String → Option String
or_else none b = b
or_else (some a) b = some a

unfoldable pub resolve_issuer_instance : TenantRecord → Option String → Option IssuerInstance
resolve_issuer_instance tenant wanted =
    find_instance (or_else wanted tenant.default_instance_id) tenant.issuer_instances
