-- ===== src/Provisioning/Block.antt =====
-- The block that `renderEnvBlock` writes, as names and values.
use text.Mathlib.TextLemmas.{cons-append, append_assoc}
use vcalm_status_service.Common.{
  String, ◌≡◌, refl, sym, ap, ◌∙◌, true, Option, none, some, List, [], ◌∷◌, ◌++◌, map, string_eq,
  is_some,
}
use vcalm_status_service.Common.Dict
use vcalm_status_service.Common.Text.{◌⧺◌, decimal}
use vcalm_status_service.Common.Ascii.{upper_case}
use vcalm_status_service.Common.Prefix.{strip_prefix, join}
use vcalm_status_service.VcSigner.{
  Cryptosuite, DidMethod, KeyMaterial, ed25519_seed, multikey, cryptosuite_name, did_method_name,
}
use vcalm_status_service.Tenants.Env.{Env}
use vcalm_status_service.Provisioning.{
  ProvisionedTenant, key_material_lines, domain_lines, env_block_lines, block_comment,
}
use vcalm_status_service.Provisioning.Entries.{
  line_of, line_of-prefix, suffixed, issuer_prefix, well_named,
}

abbrev pub material_entries : KeyMaterial → Env
material_entries (ed25519_seed seed) = ("TENANT_ISSUER_1_SEED_", seed) ∷ []
material_entries (multikey public secret) =
    ("TENANT_ISSUER_1_PUBLIC_KEY_", public) ∷ ("TENANT_ISSUER_1_SECRET_KEY_", secret) ∷ []

abbrev pub instance_entries : String → Cryptosuite → DidMethod → KeyMaterial → Env
instance_entries id suite method m =
    ("TENANT_DEFAULT_INSTANCE_", id)
    ∷ ("TENANT_ISSUER_1_ID_", id)
    ∷ ("TENANT_ISSUER_1_CRYPTOSUITE_", cryptosuite_name suite)
    ∷ ("TENANT_ISSUER_1_DID_METHOD_", did_method_name method)
    ∷ material_entries m

abbrev pub domain_entries : List String → Env → Env
domain_entries [] rest = rest
domain_entries (d ∷ ds) rest = ("TENANT_DOMAINS_", join "," (d ∷ ds)) ∷ rest

-- The block's variables, by the fronts of their names.
abbrev pub block_entries :
    String → List String → String → Cryptosuite → DidMethod → KeyMaterial → Env
block_entries token domains id suite method m =
    ("TENANT_TOKEN_", token) ∷ domain_entries domains (instance_entries id suite method m)

abbrev pub entries_of : ProvisionedTenant → Env
entries_of t =
    block_entries t.token t.authorized_domains t.instance_id t.profile.cryptosuite
      t.profile.did_method t.key_material

line_in :
    (p x v : String) {rest lines : List String}
    → rest ≡ lines
    → (p ⧺ x ⧺ "=" ⧺ v) ∷ rest ≡ line_of (p ⧺ x, v) ∷ lines
line_in p x v {rest} e =
    ap (λ l. l ∷ rest) (sym (line_of-prefix p x v)) ∙ ap (λ r. line_of (p ⧺ x, v) ∷ r) e

material_line_in :
    (p field x v : String) {rest lines : List String}
    → rest ≡ lines
    → (p ⧺ field ⧺ x ⧺ "=" ⧺ v) ∷ rest ≡ line_of ((p ⧺ field) ⧺ x, v) ∷ lines
material_line_in p field x v {rest} e =
    ap (λ l. l ∷ rest) (sym (append_assoc p field (x ⧺ "=" ⧺ v))) ∙ line_in (p ⧺ field) x v e

material_lines :
    (x : String) (m : KeyMaterial)
    → key_material_lines m x ≡ map line_of (suffixed x (material_entries m))
unfolding key_material_lines
material_lines x (ed25519_seed seed) = material_line_in "TENANT_ISSUER_1" "_SEED_" x seed refl
material_lines x (multikey public secret) =
    material_line_in "TENANT_ISSUER_1" "_PUBLIC_KEY_" x public
      (material_line_in "TENANT_ISSUER_1" "_SECRET_KEY_" x secret refl)

lines_after_domains :
    (x : String) (ds : List String) (ps : Env) {rest : List String}
    → rest ≡ map line_of (suffixed x ps)
    → domain_lines ds x ++ rest ≡ map line_of (suffixed x (domain_entries ds ps))
unfolding domain_lines
lines_after_domains x [] ps e = e
lines_after_domains x (d ∷ ds) ps e = line_in "TENANT_DOMAINS_" x (join "," (d ∷ ds)) e

-- The lines of the block are a comment and these variables.
pub env_block_lines_lem :
    (t : ProvisionedTenant)
    → env_block_lines t
      ≡ block_comment t ∷ map line_of (suffixed (upper_case t.tenant_id) (entries_of t))
unfolding env_block_lines
env_block_lines_lem t =
    let x = upper_case t.tenant_id in
    ap (λ l. block_comment t ∷ l)
      (line_in "TENANT_TOKEN_" x (t.token) (
        lines_after_domains x (t.authorized_domains) _ (
          line_in "TENANT_DEFAULT_INSTANCE_" x (t.instance_id) (
            line_in "TENANT_ISSUER_1_ID_" x (t.instance_id) (
              line_in "TENANT_ISSUER_1_CRYPTOSUITE_" x (cryptosuite_name t.profile.cryptosuite) (
                line_in "TENANT_ISSUER_1_DID_METHOD_" x (did_method_name t.profile.did_method)
                  (material_lines x (t.key_material))))))))

pub block_comment-Is : (t : ProvisionedTenant) → is_some (strip_prefix "#" (block_comment t)) ≡ true
block_comment-Is t = rw (cons-append "#" " Tenant \"" _) refl

abbrev pub seed_of : KeyMaterial → Option String
seed_of (ed25519_seed seed) = some seed
seed_of (multikey _ _) = none

abbrev pub public_of : KeyMaterial → Option String
public_of (ed25519_seed _) = none
public_of (multikey public _) = some public

abbrev pub secret_of : KeyMaterial → Option String
secret_of (ed25519_seed _) = none
secret_of (multikey _ secret) = some secret

abbrev pub domains_text : List String → Option String
domains_text [] = none
domains_text (d ∷ ds) = some (join "," (d ∷ ds))

-- What stands in the block under the front of each name that is looked up.
pub record Lookups (id : String) (suite : Cryptosuite) (ds : List String) (m : KeyMaterial)
    (ps : Env) : Type 0 where
  pub id_at : Dict.get (issuer_prefix 1 "ID") ps ≡ some id
  pub next_at : Dict.get (issuer_prefix 2 "ID") ps ≡ none
  pub method_at : Dict.get (issuer_prefix 1 "DID_METHOD") ps ≡ some "key"
  pub url_at : Dict.get (issuer_prefix 1 "DID_URL") ps ≡ none
  pub seed_at : Dict.get (issuer_prefix 1 "SEED") ps ≡ seed_of m
  pub public_at : Dict.get (issuer_prefix 1 "PUBLIC_KEY") ps ≡ public_of m
  pub secret_at : Dict.get (issuer_prefix 1 "SECRET_KEY") ps ≡ secret_of m
  pub suite_at : Dict.get (issuer_prefix 1 "CRYPTOSUITE") ps ≡ some (cryptosuite_name suite)
  pub tenant_at : Dict.get (issuer_prefix 1 "SIGNING_TENANT") ps ≡ none
  pub bearer_at : Dict.get (issuer_prefix 1 "SIGNING_TOKEN") ps ≡ none
  pub did_at : Dict.get (issuer_prefix 1 "ISSUER_DID") ps ≡ none
  pub default_at : Dict.get "TENANT_DEFAULT_INSTANCE_" ps ≡ some id
  pub domains_at : Dict.get "TENANT_DOMAINS_" ps ≡ domains_text ds

module _ (token id : String) (suite : Cryptosuite) where
  pub block-Lookups :
      (ds : List String) (m : KeyMaterial)
      → Lookups id suite ds m (block_entries token ds id suite DidMethod.key m)
  unfolding decimal
  block-Lookups [] (ed25519_seed s) = record {
    id_at = refl;
    next_at = refl;
    method_at = refl;
    url_at = refl;
    seed_at = refl;
    public_at = refl;
    secret_at = refl;
    suite_at = refl;
    tenant_at = refl;
    bearer_at = refl;
    did_at = refl;
    default_at = refl;
    domains_at = refl;
  }
  block-Lookups [] (multikey p s) = record {
    id_at = refl;
    next_at = refl;
    method_at = refl;
    url_at = refl;
    seed_at = refl;
    public_at = refl;
    secret_at = refl;
    suite_at = refl;
    tenant_at = refl;
    bearer_at = refl;
    did_at = refl;
    default_at = refl;
    domains_at = refl;
  }
  block-Lookups (d ∷ ds) (ed25519_seed s) = record {
    id_at = refl;
    next_at = refl;
    method_at = refl;
    url_at = refl;
    seed_at = refl;
    public_at = refl;
    secret_at = refl;
    suite_at = refl;
    tenant_at = refl;
    bearer_at = refl;
    did_at = refl;
    default_at = refl;
    domains_at = refl;
  }
  block-Lookups (d ∷ ds) (multikey p s) = record {
    id_at = refl;
    next_at = refl;
    method_at = refl;
    url_at = refl;
    seed_at = refl;
    public_at = refl;
    secret_at = refl;
    suite_at = refl;
    tenant_at = refl;
    bearer_at = refl;
    did_at = refl;
    default_at = refl;
    domains_at = refl;
  }

  pub block-well_named :
      (ds : List String) (m : KeyMaterial)
      → well_named (block_entries token ds id suite DidMethod.key m) ≡ true
  block-well_named [] (ed25519_seed s) = refl
  block-well_named [] (multikey p s) = refl
  block-well_named (d ∷ ds) (ed25519_seed s) = refl
  block-well_named (d ∷ ds) (multikey p s) = refl
