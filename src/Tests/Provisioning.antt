-- ===== src/Tests/Provisioning.antt =====
-- A sample tenant, provisioned into an env file.
use vcalm_status_service.Common.{
  String, ◌≡◌, refl, Bool, true, false, Option, none, some, [], ◌∷◌, string_eq,
}
use vcalm_status_service.Common.Text.{◌⧺◌}
use vcalm_status_service.Common.Ascii.{trim}
use vcalm_status_service.Json.{Json}
use vcalm_status_service.Errors.{Result, ok, err, plain_error, provisioning_error}
use vcalm_status_service.VcSigner.{
  Cryptosuite, eddsa_rdfc_2022, DidMethod, KeyMaterial, ed25519_seed,
}
use vcalm_status_service.VcSigner.Signer.{load_key_pair, derive_did, create_signer}
use vcalm_status_service.Tenants.{resolve_issuer_instance}
use vcalm_status_service.Tenants.Memory.{MemoryTenantRegistry, memory_tenants}
use vcalm_status_service.Tenants.Env.{parse_tenants_from_env}
use vcalm_status_service.Auth.{tenant_auth}
use vcalm_status_service.Provisioning.{
  IssuerProfile, get_profile, normalize_tenant_id, ProvisionedTenant, provision_tenant,
  render_env_block, render_ready_curl,
}
use vcalm_status_service.Provisioning.Files.{
  EnvFile, append_env_block, base_url_from_env_file, has_tenant,
}
use vcalm_status_service.Provisioning.Reads.{block_instance}
use vcalm_status_service.Provisioning.RoundTrip.{
  IsWritable, record_of, render_env_block-parse_tenants_from_env,
}
use vcalm_status_service.Provisioning.Ready.{provisioned_ready}
use vcalm_status_service.Provisioning.Appends.{append_env_block_twice}
use vcalm_status_service.Provisioning.BaseUrl.{base_url_from_env_file-line}
use vcalm_status_service.Provisioning.Command.{
  Options, Terminal, parse_emit_targets, write_block, announce, provision, run,
}
use vcalm_status_service.Provisioning.Command.Outcome.{run_atomic}
use vcalm_status_service.Config.{TenantRegistryMode}
use vcalm_status_service.Services.{create_tenant_registry}
use vcalm_status_service.Tests.Startup.{platform}
use vcalm_status_service.Tests.Loader.{loader}
use vcalm_status_service.Tests.Signers.{libs}

abbrev eddsa : IssuerProfile
eddsa = record {
  id = "did-key-eddsa-2022-v1";
  did_method = DidMethod.key;
  cryptosuite = eddsa_rdfc_2022;
  summary = "did:key + eddsa-rdfc-2022 — the default, and the exercised path";
}

abbrev acme : ProvisionedTenant
acme = record {
  tenant_id = "acme_2";
  profile = eddsa;
  instance_id = "default";
  token = "dG9rZW4";
  key_material = ed25519_seed "z1AdwX";
  authorized_domains = "a.test" ∷ "b.test:8080" ∷ [];
  did = "did:key:z6Mk";
  verification_method = "did:key:z6Mk#z6Mk";
}

acme-IsWritable : IsWritable acme
unfolding get_profile
acme-IsWritable = record {
  name = refl;
  offered = refl;
  instance_word = (refl, λ e. cc e);
  token_item = ((refl, λ e. cc e), refl);
  material_words = (refl, λ e. cc e);
  domain_items = (((refl, λ e. cc e), refl), (((refl, λ e. cc e), refl), tt));
  one_line = refl;
}

abbrev le : String → String → Bool
le a b = true

abbrev verify : String → String → Option Json
verify token secret = none

render_env_block-parse_tenants_from_env_example :
    parse_tenants_from_env le (loader.load (render_env_block acme)) ≡ ok (record_of acme ∷ [])
render_env_block-parse_tenants_from_env_example =
    render_env_block-parse_tenants_from_env acme acme-IsWritable loader le

-- No regular expression is made of anything but words.
abbrev reg_exp : String → String → Result Bool
reg_exp source text = err plain_error

abbrev no_file : EnvFile
no_file = record { contents = none; readable = true; writable = true }

provisioned_ready_example :
    (text header : String) × (append_env_block reg_exp
        (render_env_block acme)
        "acme_2"
        false
        no_file
      ≡ (ok (record { created = true; base_url = none }), record no_file { contents = some text }))
    × ((front rest : String) × (render_ready_curl acme "http://localhost:4008"
          ≡ front ⧺ "Authorization: " ⧺ header ⧺ rest))
    × ((m : MemoryTenantRegistry) × (create_tenant_registry platform TenantRegistryMode.env
            (loader.load text)
          ≡ ok m)
        × (tenant_auth verify (memory_tenants m) (some "secret") (some header)
            ≡ ok (record_of acme)))
    × (resolve_issuer_instance (record_of acme) none
        ≡ some (block_instance "acme_2" "default" eddsa_rdfc_2022 (ed25519_seed "z1AdwX")))
provisioned_ready_example =
    provisioned_ready acme acme-IsWritable loader platform reg_exp false no_file
      "http://localhost:4008" verify (some "secret") refl refl refl

append_env_block_twice_example :
    append_env_block reg_exp "TENANT_TOKEN_ACME_2=other\n" "acme_2" false
      (append_env_block reg_exp (render_env_block acme) "acme_2" false no_file).1
    ≡ (
      err provisioning_error,
      (append_env_block reg_exp (render_env_block acme) "acme_2" false no_file).1,
    )
unfolding append_env_block
append_env_block_twice_example =
    append_env_block_twice acme reg_exp "TENANT_TOKEN_ACME_2=other\n" false no_file (λ e. cc e) refl
      refl refl

base_url_from_env_file-line_example :
    base_url_from_env_file ("PUBLIC_BASE_URL" ⧺ "=" ⧺ "\n" ⧺ "SIGNING_MODE=local" ⧺ "\n")
    ≡ some "SIGNING_MODE=local"
base_url_from_env_file-line_example =
    base_url_from_env_file-line "\n" "SIGNING_MODE=local" "" refl (refl, λ e. cc e)

abbrev options : Options
options = record {
  tenant = some "acme_2";
  profile = "did-key-eddsa-2022-v1";
  instance_name = "default";
  domains = none;
  emit = "transaction-service" ∷ [];
  print_only = false;
  force = false;
  list_profiles = false;
  help = false;
}

abbrev taken : Terminal
taken = record {
  file = record no_file { contents = some "\n TENANT_TOKEN_ACME_2 = other\n" };
  printed = [];
}

abbrev generated : Cryptosuite → Result KeyMaterial
generated c = ok (ed25519_seed "z1")

refuses :
    run libs generated "token" reg_exp ".env" "" options taken ≡ (err provisioning_error, taken)
unfolding run provision parse_emit_targets normalize_tenant_id get_profile provision_tenant
    create_signer load_key_pair derive_did announce write_block append_env_block has_tenant trim
refuses = refl

run_atomic_example : taken.file ≡ taken.file
run_atomic_example =
    run_atomic libs generated "token" reg_exp ".env" "" options refl taken taken provisioning_error
      refuses
