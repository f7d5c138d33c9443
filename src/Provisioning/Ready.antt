-- ===== src/Provisioning/Ready.antt =====
-- A tenant that service/src/cli/provisioning.ts made is usable: a service that starts with the file
-- lets in the call that `renderReadyCurl` prints.
use text.Mathlib.TextLemmas.{append_assoc}
use vcalm_status_service.Common.{
  true, ap, Bool-cases, inl, inr, String, ◌≡◌, refl, ◌∙◌, Bool, Option, none, some, string_eq,
  beq_self, beq_ne,
}
use vcalm_status_service.Common.Text.{◌⧺◌}
use vcalm_status_service.Json.{Json}
use vcalm_status_service.Errors.{Result, ok}
use vcalm_status_service.Tenants.{resolve_issuer_instance}
use vcalm_status_service.Tenants.Memory.{
  MemoryTenantRegistry, empty_registry, memory_tenants, add, add_all, get_tenant_by_token,
  get_tenant_by_token-add,
}
use vcalm_status_service.Tenants.Env.{env_registry}
use vcalm_status_service.Auth.{tenant_auth, resolve_tenant, tenant_id_from_access_token}
use vcalm_status_service.Auth.Bearer.{bearer_token_of-bearer}
use vcalm_status_service.Provisioning.{ProvisionedTenant, render_env_block, render_ready_curl}
use vcalm_status_service.Provisioning.Files.{EnvFile, new_file_header, append_env_block}
use vcalm_status_service.Config.{TenantRegistryMode}
use vcalm_status_service.Services.{Platform, create_tenant_registry}
use vcalm_status_service.Provisioning.Entries.{Loader}
use vcalm_status_service.Provisioning.Words.{trim-plain}
use vcalm_status_service.Provisioning.Reads.{block_instance}
use vcalm_status_service.Provisioning.RoundTrip.{
  IsWritable, record_of, render_env_block-parse_tenants_from_env,
}

module _ (t : ProvisionedTenant) (writable : IsWritable t) (loader : Loader) where
  registry : MemoryTenantRegistry
  registry = (add (record_of t) empty_registry).1

  -- The file that the command makes.
  abbrev pub new_file : String
  new_file = new_file_header ⧺ "\n" ⧺ render_env_block t

  abbrev header_comment : String
  header_comment = "# Written by `pnpm provision-tenant`. Secrets — never commit this file."

  loaded : loader.load new_file ≡ loader.load (render_env_block t)
  loaded =
      ap loader.load (append_assoc header_comment "\n" ("\n" ⧺ render_env_block t))
      ∙ loader.load_comment header_comment ("\n" ⧺ render_env_block t) refl refl
      ∙ loader.load_blank (render_env_block t)

  started :
      (le : String → String → Bool)
      → env_registry le (loader.load (render_env_block t)) ≡ ok registry
  unfolding env_registry add_all add registry
  started le = rw (render_env_block-parse_tenants_from_env t writable loader le) refl

  known : get_tenant_by_token registry t.token ≡ some (record_of t)
  unfolding registry
  known =
      get_tenant_by_token-add (record_of t) empty_registry (t.token) refl
      ∙ rw (beq_ne ((writable.token_item).0).1, beq_self (t.token)) refl

  created :
      (reg_exp : String → String → Result Bool) (force : Bool) (f : EnvFile)
      → f.contents ≡ none
      → f.writable ≡ true
      → append_env_block reg_exp (render_env_block t) t.tenant_id force f
        ≡ (ok (record { created = true; base_url = none }), record f { contents = some new_file })
  unfolding append_env_block
  created reg_exp force f missing may = elim (Bool-cases f.readable) [
    | inl readable ↦ rw (readable, missing, may) refl
    | inr unreadable ↦ rw (unreadable, may) refl
  ]

  -- The printed call sends a header.
  abbrev Sends : String → String → Type 0
  Sends call header = (front rest : String) × (call ≡ front ⧺ "Authorization: " ⧺ header ⧺ rest)

  curl-Sends : (base_url : String) → Sends (render_ready_curl t base_url) ("Bearer " ⧺ t.token)
  unfolding render_ready_curl
  curl-Sends base_url =
      let start : String = "curl -X POST " ⧺ base_url ⧺ "/status-lists \\" in
      let tail : String =
        "\n  -H 'Content-Type: application/json' \\\n  -d '{\"statusPurpose\":\"revocation\"}'" in
      let sent : "  -H \"Authorization: Bearer " ⧺ t.token ⧺ "\" \\"
          ≡ "  -H \"" ⧺ "Authorization: " ⧺ "Bearer " ⧺ t.token ⧺ "\" \\" =
        append_assoc "  -H \"Authorization: " "Bearer " (t.token ⧺ "\" \\")
        ∙ append_assoc "  -H \"" "Authorization: " ("Bearer " ⧺ t.token ⧺ "\" \\") in
      (
        start ⧺ "\n" ⧺ "  -H \"",
        "\" \\" ⧺ tail,
        ap (λ s. start ⧺ "\n" ⧺ s ⧺ tail) sent ∙ simp (append_assoc),
      )

  -- For a tenant that can be written and an env file that is not there and can be written:
  -- `append_env_block` makes the file; the call that `render_ready_curl` renders sends an
  -- Authorization header; the registry that a service makes in the mode env, from what a loader
  -- that keeps its laws loads of that file, lets that header in as that tenant, if its token is not
  -- taken for an access token; and the tenant's issuer instance is found without naming it.
  pub provisioned_ready :
      (platform : Platform) (reg_exp : String → String → Result Bool) (force : Bool) (f : EnvFile)
      (base_url : String) (verify : String → String → Option Json) (secret : Option String)
      → f.contents ≡ none
      → f.writable ≡ true
      → tenant_id_from_access_token verify t.token secret ≡ none
      → (text header : String) × (append_env_block reg_exp (render_env_block t) t.tenant_id force f
          ≡ (ok (record { created = true; base_url = none }), record f { contents = some text }))
        × Sends (render_ready_curl t base_url) header
        × ((m : MemoryTenantRegistry) × (create_tenant_registry platform TenantRegistryMode.env
                (loader.load text)
              ≡ ok m)
            × (tenant_auth verify (memory_tenants m) secret (some header) ≡ ok (record_of t)))
        × (resolve_issuer_instance (record_of t) none
            ≡ some (block_instance t.tenant_id t.instance_id t.profile.cryptosuite t.key_material))
  unfolding tenant_auth resolve_tenant resolve_issuer_instance create_tenant_registry
  provisioned_ready platform reg_exp force f base_url verify secret missing may opaque =
      let header =
        bearer_token_of-bearer (t.token) (trim-plain (t.token) ((writable.token_item).0).0)
          ((writable.token_item).0).1 in
      (
        new_file,
        "Bearer " ⧺ t.token,
        created reg_exp force f missing may,
        curl-Sends base_url,
        (
          registry,
          ap (env_registry platform.locale_le) loaded ∙ started platform.locale_le,
          rw header (rw opaque (rw known refl)),
        ),
        rw (beq_self (t.instance_id)) refl,
      )
