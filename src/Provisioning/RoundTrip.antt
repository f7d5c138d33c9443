-- ===== src/Provisioning/RoundTrip.antt =====
-- What `renderEnvBlock` of service/src/cli/provisioning.ts writes is read back by `parseTenantsFromEnv`
-- of service/src/services/tenants-env.ts.
use vcalm_status_service.Common.{
  ℕ, ◌-◌, String, ◌≡◌, refl, ap, ◌∙◌, Bool, true, false, not, ◌&&◌, some, List, [], ◌∷◌, map, arith,
  ◌==◌, string_eq, nat_eq, if◌then◌else◌, All, Bool-cases, inl, inr, beq_ne, beq_self,
}
use vcalm_status_service.Common.Dict
use vcalm_status_service.Common.Text.{◌⧺◌}
use vcalm_status_service.Common.Ascii.{lower_case, upper_case}
use vcalm_status_service.Common.Prefix.{join, differ, strip_prefix-append, strip_prefix-differ}
use vcalm_status_service.Common.Chars.{all_chars}
use vcalm_status_service.Common.Case.{
  is_uncapital, is_lower, lower_case-upper_case, all_chars-upper_case,
}
use vcalm_status_service.Errors.{ok}
use vcalm_status_service.VcSigner.{DidMethod, Cryptosuite, KeyMaterial, ed25519_seed, multikey}
use vcalm_status_service.Tenants.{IssuerInstance, TenantRecord}
use vcalm_status_service.Tenants.Env.{
  Env, list, trimmed, unless_nil, unknown_default, parse_tenant, parse_entries,
  parse_tenants_from_env, parse_issuer_instances,
}
use vcalm_status_service.Provisioning.{
  IssuerProfile, get_profile, is_name_char, is_tenant_name, ProvisionedTenant, render_env_block,
  block_comment,
}
use vcalm_status_service.Provisioning.Files.{is_break}
use vcalm_status_service.Provisioning.Entries.{
  Loader, line_of, suffixed, get-suffixed, suffixed-IsLoadable, is_key_char,
}
use vcalm_status_service.Provisioning.Words.{IsWord, IsItem, trimmed-word, list-join}
use vcalm_status_service.Provisioning.Block.{
  instance_entries, entries_of, env_block_lines_lem, block_comment-Is, block_entries,
  domain_entries, domains_text, Lookups, block-Lookups, block-well_named,
}
use vcalm_status_service.Provisioning.Reads.{
  block-ArePlain, MaterialWords, block_instance, parse_issuer_instances-block,
}

-- A tenant that can be written to an env file without quotes, as the command makes one.
pub record IsWritable (t : ProvisionedTenant) : Type 0 where
  pub name : is_tenant_name t.tenant_id ≡ true
  pub offered : get_profile t.profile.id ≡ ok t.profile
  pub instance_word : IsWord t.instance_id
  pub token_item : IsItem t.token
  pub material_words : MaterialWords t.key_material
  pub domain_items : All IsItem t.authorized_domains
  pub one_line : all_chars (λ c. not (is_break c)) (block_comment t) ≡ true

-- What the registry holds of it.
abbrev pub record_of : ProvisionedTenant → TenantRecord
record_of t = record {
  tenant_id = t.tenant_id;
  tokens = t.token ∷ [];
  issuer_instances =
      block_instance t.tenant_id t.instance_id t.profile.cryptosuite t.key_material ∷ [];
  default_instance_id = some t.instance_id;
  authorized_domains = unless_nil t.authorized_domains;
}

name_uncapital : (s : String) → all_chars is_name_char s ≡ true → is_uncapital s ≡ true
name_uncapital String.[] h = refl
name_uncapital (String.◌∷◌ c s) h = ground (arith, name_uncapital s)

tenant_name_uncapital : (s : String) → is_tenant_name s ≡ true → is_uncapital s ≡ true
tenant_name_uncapital String.[] h = refl
tenant_name_uncapital (String.◌∷◌ c s) h = ground (arith, name_uncapital s)

name_key_char :
    (c : ℕ)
    → is_name_char c ≡ true
    → (if is_lower c then is_key_char (c - 32) else is_key_char c) ≡ true
name_key_char c h = ground arith

tenant_name_chars : (s : String) → is_tenant_name s ≡ true → all_chars is_name_char s ≡ true
tenant_name_chars String.[] h = refl
tenant_name_chars (String.◌∷◌ c s) h = ground arith

-- The command offers only `did:key`.
get_profile-key :
    (id : String) (p : IssuerProfile) → get_profile id ≡ ok p → p.did_method ≡ DidMethod.key
unfolding get_profile
get_profile-key id p h = elim (Bool-cases ("did-key-eddsa-2022-v1" == id)) [
  | inl first ↦ cc (rw first at h)
  | inr other ↦ elim (Bool-cases ("did-key-ecdsa-2019-v1" == id)) [
    | inl second ↦ cc (rw (other, second) at h)
    | inr neither ↦ cc (rw (other, neither) at h)
  ]
]

-- Names that are not those of tokens.
abbrev no_tokens : Env → Bool
no_tokens [] = true
no_tokens ((p, v) ∷ ps) = differ "TENANT_TOKEN_" p && no_tokens ps

parse_entries-no_tokens :
    (env : Env) (x : String) (ps : Env)
    → no_tokens ps ≡ true
    → parse_entries env (suffixed x ps) ≡ ok []
unfolding parse_entries
parse_entries-no_tokens env x [] h = refl
parse_entries-no_tokens env x ((p, v) ∷ ps) h = elim (Bool-cases (differ "TENANT_TOKEN_" p)) [
  | inl other ↦
      rw (strip_prefix-differ "TENANT_TOKEN_" p x other)
        (parse_entries-no_tokens env x ps (rw other at h))
  | inr same ↦ cc (rw same at h)
]

block_no_tokens :
    (id : String) (suite : Cryptosuite) (ds : List String) (m : KeyMaterial)
    → no_tokens (domain_entries ds (instance_entries id suite DidMethod.key m)) ≡ true
block_no_tokens id suite [] (ed25519_seed s) = refl
block_no_tokens id suite [] (multikey p s) = refl
block_no_tokens id suite (d ∷ ds) (ed25519_seed s) = refl
block_no_tokens id suite (d ∷ ds) (multikey p s) = refl

list-domains : (ds : List String) → All IsItem ds → list (domains_text ds) ≡ ds
list-domains [] items = refl
list-domains (d ∷ ds) items = list-join d ds items

parse_tenant_of :
    (env : Env) (name value id wanted token : String) (is : List IssuerInstance) (ds : List String)
    → lower_case name ≡ id
    → list (some value) ≡ token ∷ []
    → parse_issuer_instances env id ≡ ok is
    → trimmed (Dict.get ("TENANT_DEFAULT_INSTANCE_" ⧺ upper_case id) env) ≡ some wanted
    → unknown_default (some wanted) is ≡ false
    → list (Dict.get ("TENANT_DOMAINS_" ⧺ upper_case id) env) ≡ ds
    → parse_tenant env name value
      ≡ ok (record {
        tenant_id = id;
        tokens = token ∷ [];
        issuer_instances = is;
        default_instance_id = some wanted;
        authorized_domains = unless_nil ds;
      })
unfolding parse_tenant
parse_tenant_of env name value id wanted token is ds h1 h2 h3 h4 h5 h6 =
    rw (h1, h2, h3) (rw (h4, h6) (rw h5 refl))

module _ (t : ProvisionedTenant) (writable : IsWritable t) where
  back : lower_case (upper_case t.tenant_id) ≡ t.tenant_id
  back = lower_case-upper_case (t.tenant_id) (tenant_name_uncapital (t.tenant_id) writable.name)

  abbrev block : Env
  block =
      block_entries t.token t.authorized_domains t.instance_id t.profile.cryptosuite DidMethod.key
        t.key_material

  method_is : t.profile.did_method ≡ DidMethod.key
  method_is = get_profile-key (t.profile.id) (t.profile) writable.offered

  entries-block : entries_of t ≡ block
  entries-block =
      ap
        (λ d.
          block_entries t.token t.authorized_domains t.instance_id t.profile.cryptosuite d
            t.key_material)
        method_is

  found :
      Lookups (t.instance_id) (t.profile.cryptosuite) (t.authorized_domains) (t.key_material) block
  found =
      block-Lookups (t.token) (t.instance_id) (t.profile.cryptosuite) (t.authorized_domains)
        (t.key_material)

  parse_tenant-block :
      parse_tenant (suffixed (upper_case t.tenant_id) block) (upper_case t.tenant_id) (t.token)
      ≡ ok (record_of t)
  parse_tenant-block =
      let name = upper_case t.tenant_id in
      parse_tenant_of (suffixed name block) name (t.token) (t.tenant_id) (t.instance_id) (t.token) _
        _ back (list-join (t.token) [] (writable.token_item, tt))
        (parse_issuer_instances-block (t.tenant_id) (t.instance_id) (t.profile.cryptosuite)
          (t.authorized_domains) (t.key_material) block found writable.instance_word
          writable.material_words)
        (ap trimmed (get-suffixed "TENANT_DEFAULT_INSTANCE_" name block ∙ found.default_at)
          ∙ trimmed-word (t.instance_id) writable.instance_word)
        (rw (beq_self (t.instance_id), beq_ne ((writable.instance_word).1)) refl)
        (ap list (get-suffixed "TENANT_DOMAINS_" name block ∙ found.domains_at)
          ∙ list-domains (t.authorized_domains) writable.domain_items)

  parse_entries-block :
      (env : Env)
      → parse_tenant env (upper_case t.tenant_id) (t.token) ≡ ok (record_of t)
      → parse_entries env (suffixed (upper_case t.tenant_id) block) ≡ ok (record_of t ∷ [])
  unfolding parse_entries
  parse_entries-block env parsed =
      let rest =
        parse_entries-no_tokens env (upper_case t.tenant_id)
          (domain_entries t.authorized_domains
            (instance_entries t.instance_id t.profile.cryptosuite DidMethod.key t.key_material))
          (block_no_tokens (t.instance_id) (t.profile.cryptosuite) (t.authorized_domains)
            (t.key_material)) in
      rw (strip_prefix-append "TENANT_TOKEN_" (upper_case t.tenant_id)) (rw (parsed, rest) refl)

  loaded :
      (loader : Loader) → loader.load (render_env_block t) ≡ suffixed (upper_case t.tenant_id) block
  unfolding render_env_block
  loaded loader =
      let name = upper_case t.tenant_id in
      ap (λ lines. loader.load (join "\n" lines ⧺ "\n"))
        (env_block_lines_lem t
          ∙ ap (λ ps. block_comment t ∷ map line_of (suffixed name ps)) entries-block)
      ∙ loader.load_lines (block_comment t) (suffixed name block) (block_comment-Is t)
          writable.one_line
          (suffixed-IsLoadable name block
            (all_chars-upper_case is_name_char is_key_char (t.tenant_id) name_key_char
              (tenant_name_chars (t.tenant_id) writable.name))
            (block-well_named (t.token) (t.instance_id) (t.profile.cryptosuite)
              (t.authorized_domains) (t.key_material))
            (block-ArePlain (t.token) (t.instance_id) (t.profile.cryptosuite) (t.authorized_domains)
              (t.key_material) (writable.token_item).0 writable.instance_word writable.domain_items
              writable.material_words))

  -- The block of a tenant that can be written, loaded by a loader that keeps its law, is read back
  -- as that tenant alone: its id, token and domains, and one instance with its key, cryptosuite and
  -- DID method, which is the default.
  pub render_env_block-parse_tenants_from_env :
      (loader : Loader) (le : String → String → Bool)
      → parse_tenants_from_env le (loader.load (render_env_block t)) ≡ ok (record_of t ∷ [])
  unfolding parse_tenants_from_env
  render_env_block-parse_tenants_from_env loader le =
      ap (parse_tenants_from_env le) (loaded loader)
      ∙ rw (parse_entries-block (suffixed (upper_case t.tenant_id) block) parse_tenant-block) refl
