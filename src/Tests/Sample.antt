-- ===== src/Tests/Sample.antt =====
-- One tenant with one issuer instance, and a storage with one list of four entries.
use vcalm_status_service.Common.{
  ℕ, ◌-◌, ◌<◌, String, refl, Option, none, some, [], ◌∷◌, arith, ◌==◌, string_eq, if◌then◌else◌,
}
use vcalm_status_service.Common.Text.{◌⧺◌, decimal}
use vcalm_status_service.Json.{end}
use vcalm_status_service.VcSigner.{
  one, one_type, did, one_proof, VerifiableCredential, eddsa_rdfc_2022, DidMethod,
}
use vcalm_status_service.Tenants.{IssuerInstance, TenantRecord}
use vcalm_status_service.Signing.{SigningService, Signs}
use vcalm_status_service.Signing.Fake.{fake_signing, fake-Signs}
use vcalm_status_service.Storage.{revocation, StatusListRecord, AllocationQuery}
use vcalm_status_service.Storage.Memory.{MemoryStorage}
use vcalm_status_service.Storage.Memory.Lists.{IsValid}
use vcalm_status_service.StatusLists.Manager.{Deps}
use vcalm_status_service.StatusLists.Manager.Effects.{Outside}

abbrev pub instance_1 : IssuerInstance
instance_1 = record {
  id = "instance-1";
  cryptosuite = eddsa_rdfc_2022;
  did_method = DidMethod.key;
  did_url = none;
  key_material = none;
  signing_service_tenant = none;
  signing_service_token = none;
  issuer_did = none;
}

abbrev pub acme : TenantRecord
acme = record {
  tenant_id = "acme";
  tokens = "token-1" ∷ [];
  issuer_instances = instance_1 ∷ [];
  default_instance_id = none;
  authorized_domains = none;
}

abbrev only_acme : String → Option TenantRecord
only_acme id = if id == "acme" then some acme else none

abbrev pub deps : Deps
deps = record {
  tenants = record { get_tenant = only_acme; get_tenant_by_token = λ t. none };
  public_base_url = "https://status.example";
  now = λ k. 1786190096789;
  system_clock = λ k. 1786190096789;
  random_index = λ k n. n - 1;
  generate_id = λ k. "list-" ⧺ decimal k;
  roll_numerator = 1;
  roll_denominator = 2;
}

pub random_index_in_range : (k n : ℕ) → 0 < n → deps.random_index k n < n
random_index_in_range k n h = omega arith

abbrev pub signing : SigningService
signing = fake_signing (λ u. "00")

pub instance_1-Signs : Signs signing instance_1
instance_1-Signs = fake-Signs (λ u. "00") instance_1

abbrev pub outside : Outside signing
outside = record { signer = record { signed = [] }; draws = 0 }

abbrev pub credential : VerifiableCredential
credential = record {
  unsigned = record {
    context = one "https://www.w3.org/ns/credentials/v2";
    id = some "https://status.example/status-lists/list";
    type = one_type "BitstringStatusListCredential";
    issuer = did "did:example:instance-1";
    rest = end;
  };
  proof = one_proof end;
}

-- Four clear entries.
abbrev pub four : StatusListRecord
four = record {
  base = record {
    id = "list";
    tenant_id = "acme";
    issuer_instance_id = "instance-1";
    status_purpose = revocation;
    characteristics = record { length = 4; status_size = 1; status_message = none; ttl = none };
    encoded_list = "0000";
    signed_credential = credential;
  };
  version = 1;
  created_at = 5;
  updated_at = 5;
}

abbrev pub store : MemoryStorage
store = record { lists = ("list", four) ∷ []; allocations = []; used_indexes = [] }

pub store-IsValid : IsValid store
store-IsValid = (refl, refl, tt)

abbrev pub query : AllocationQuery
query = record { tenant_id = "acme"; credential_id = "urn:c1"; status_purpose = revocation }
