-- ===== src/Provisioning.antt =====
-- service/src/cli/provisioning.ts: what a new tenant is made of, and the texts that it is written as.
-- The making of keys and of token bytes, and the signature libraries, are parameters.
pub mod Files
pub mod Entries
pub mod Words
pub mod Block
pub mod Reads
pub mod RoundTrip
pub mod Ready
pub mod Appends
pub mod BaseUrl
pub mod Command
use Prim.Native.Char.{code}
use Prim.Native.String
use vcalm_status_service.Common.{
  ℕ, String, Bool, true, false, ◌&&◌, ◌||◌, Option, none, some, List, [], ◌∷◌, ◌++◌, ◌==◌, nat_eq,
  string_eq, if◌then◌else◌, get_or, find, leb,
}
use vcalm_status_service.Common.Text.{◌⧺◌}
use vcalm_status_service.Common.Ascii.{lower_case, upper_case, trim}
use vcalm_status_service.Common.Prefix.{join}
use vcalm_status_service.Common.Chars.{all_chars}
use vcalm_status_service.Errors.{Result, ok, err, provisioning_error}
use vcalm_status_service.Errors.Results.{◌>>=◌, found_or}
use vcalm_status_service.VcSigner.{
  Cryptosuite, eddsa_rdfc_2022, ecdsa_rdfc_2019, DidMethod, KeyMaterial, ed25519_seed, multikey,
  cryptosuite_name, did_method_name,
}
use vcalm_status_service.VcSigner.Signer.{SignatureLibraries, SignerConfig, create_signer}

pub record IssuerProfile : Type 0 where
  pub id : String
  pub did_method : DidMethod
  pub cryptosuite : Cryptosuite
  pub summary : String

-- `DEFAULT_PROFILE_ID`
abbrev pub default_profile_id : String
default_profile_id = "did-key-eddsa-2022-v1"

-- `PROFILES`
abbrev pub profiles : List IssuerProfile
profiles =
    record {
      id = "did-key-eddsa-2022-v1";
      did_method = DidMethod.key;
      cryptosuite = eddsa_rdfc_2022;
      summary = "did:key + eddsa-rdfc-2022 — the default, and the exercised path";
    }
    ∷ record {
      id = "did-key-ecdsa-2019-v1";
      did_method = DidMethod.key;
      cryptosuite = ecdsa_rdfc_2019;
      summary = "did:key + ecdsa-rdfc-2019 — P-256, for an ecosystem that wants it";
    }
    ∷ []

unfoldable pub get_profile : String → Result IssuerProfile
get_profile id = found_or (find (λ (p : IssuerProfile). p.id == id) profiles) provisioning_error

-- `[a-z]`, and `[a-z0-9_]`
abbrev pub is_letter : ℕ → Bool
is_letter c = leb b'a' c && leb c b'z'

abbrev pub is_name_char : ℕ → Bool
is_name_char c = is_letter c || leb b'0' c && leb c b'9' || c == b'_'

-- `/^[a-z][a-z0-9_]*$/`
abbrev pub is_tenant_name : String → Bool
is_tenant_name String.[] = false
is_tenant_name (String.◌∷◌ c s) = is_letter (code c) && all_chars is_name_char s

unfoldable pub normalize_tenant_id : String → Result String
normalize_tenant_id raw =
    let tenant_id = lower_case (trim raw) in
    if is_tenant_name tenant_id then ok tenant_id else err provisioning_error

pub record ProvisionInput : Type 0 where
  pub tenant_id : String
  pub profile : IssuerProfile
  pub instance_id : Option String
  pub authorized_domains : Option (List String)
  pub token : Option String
  pub key_material : Option KeyMaterial

pub record ProvisionedTenant : Type 0 where
  pub tenant_id : String
  pub profile : IssuerProfile
  pub instance_id : String
  pub token : String
  pub key_material : KeyMaterial
  pub authorized_domains : List String
  pub did : String
  pub verification_method : String

module _ (libs : SignatureLibraries) (generated : Cryptosuite → Result KeyMaterial)
    (fresh_token : String) where
  abbrev material_or_new : Option KeyMaterial → Cryptosuite → Result KeyMaterial
  material_or_new none suite = generated suite
  material_or_new (some m) suite = ok m

  -- `provisionTenant`
  unfoldable pub provision_tenant : ProvisionInput → Result ProvisionedTenant
  provision_tenant input = do
    key_material ← material_or_new input.key_material input.profile.cryptosuite
    signer ← create_signer libs (record {
      key_material = key_material;
      did_method = input.profile.did_method;
      cryptosuite = input.profile.cryptosuite;
      did_url = none;
    })
    ok (record {
      tenant_id = input.tenant_id;
      profile = input.profile;
      instance_id = get_or input.instance_id "default";
      token = get_or input.token fresh_token;
      key_material = key_material;
      authorized_domains = get_or input.authorized_domains [];
      did = signer.did;
      verification_method = signer.verification_method;
    })

unfoldable pub key_material_lines : KeyMaterial → String → List String
key_material_lines (ed25519_seed seed) suffix =
    ("TENANT_ISSUER_1" ⧺ "_SEED_" ⧺ suffix ⧺ "=" ⧺ seed) ∷ []
key_material_lines (multikey public secret) suffix =
    ("TENANT_ISSUER_1" ⧺ "_PUBLIC_KEY_" ⧺ suffix ⧺ "=" ⧺ public)
    ∷ ("TENANT_ISSUER_1" ⧺ "_SECRET_KEY_" ⧺ suffix ⧺ "=" ⧺ secret)
    ∷ []

unfoldable pub domain_lines : List String → String → List String
domain_lines [] suffix = []
domain_lines (d ∷ ds) suffix = ("TENANT_DOMAINS_" ⧺ suffix ⧺ "=" ⧺ join "," (d ∷ ds)) ∷ []

-- The comment that leads a block.
abbrev pub block_comment : ProvisionedTenant → String
block_comment t = "# Tenant \"" ⧺ t.tenant_id ⧺ "\" — profile " ⧺ t.profile.id ⧺ " — " ⧺ t.did

unfoldable pub env_block_lines : ProvisionedTenant → List String
unfolding key_material_lines domain_lines
env_block_lines t =
    let suffix = upper_case t.tenant_id in
    block_comment t
    ∷ ("TENANT_TOKEN_" ⧺ suffix ⧺ "=" ⧺ t.token)
    ∷ (domain_lines t.authorized_domains suffix
        ++ (("TENANT_DEFAULT_INSTANCE_" ⧺ suffix ⧺ "=" ⧺ t.instance_id)
            ∷ ("TENANT_ISSUER_1_ID_" ⧺ suffix ⧺ "=" ⧺ t.instance_id)
            ∷ ("TENANT_ISSUER_1_CRYPTOSUITE_"
                ⧺ suffix
                ⧺ "="
                ⧺ cryptosuite_name t.profile.cryptosuite)
            ∷ ("TENANT_ISSUER_1_DID_METHOD_" ⧺ suffix ⧺ "=" ⧺ did_method_name t.profile.did_method)
            ∷ key_material_lines t.key_material suffix))

unfoldable pub render_env_block : ProvisionedTenant → String
render_env_block t = join "\n" (env_block_lines t) ⧺ "\n"

pub data CrossServiceTarget : Type 0 where
  signing_service transaction_service : CrossServiceTarget

abbrev pub signing_block : ProvisionedTenant → KeyMaterial → Result String
signing_block t (multikey public secret) = err provisioning_error
signing_block t (ed25519_seed seed) =
    let suffix = upper_case t.tenant_id in
    ok (
      join "\n" (
        ("# " ⧺ t.tenant_id ⧺ " — paste into dcc-signing-service")
        ∷ ("TENANT_SEED_" ⧺ suffix ⧺ "=" ⧺ seed)
        ∷ ("TENANT_CRYPTOSUITE_" ⧺ suffix ⧺ "=" ⧺ cryptosuite_name t.profile.cryptosuite)
        ∷ ("TENANT_AUTH_TOKEN_" ⧺ suffix ⧺ "=" ⧺ t.token)
        ∷ ""
        ∷ []))

unfoldable pub render_cross_service_block : ProvisionedTenant → CrossServiceTarget → Result String
render_cross_service_block t transaction_service =
    let suffix = upper_case t.tenant_id in
    ok (
      join "\n" (
        ("# " ⧺ t.tenant_id ⧺ " — paste into dcc-transaction-service")
        ∷ ("TENANT_TOKEN_" ⧺ suffix ⧺ "=" ⧺ t.token)
        ∷ ("TENANT_ISSUER_1_ID_" ⧺ suffix ⧺ "=" ⧺ t.instance_id)
        ∷ ("TENANT_ISSUER_1_CRYPTOSUITE_" ⧺ suffix ⧺ "=" ⧺ cryptosuite_name t.profile.cryptosuite)
        ∷ ("TENANT_ISSUER_1_SIGNING_TENANT_" ⧺ suffix ⧺ "=" ⧺ t.tenant_id)
        ∷ ""
        ∷ []))
render_cross_service_block t signing_service = signing_block t t.key_material

unfoldable pub render_ready_curl : ProvisionedTenant → String → String
render_ready_curl t base_url = join "\n" (
    ("curl -X POST " ⧺ base_url ⧺ "/status-lists \\")
    ∷ ("  -H \"Authorization: Bearer " ⧺ t.token ⧺ "\" \\")
    ∷ "  -H 'Content-Type: application/json' \\"
    ∷ "  -d '{\"statusPurpose\":\"revocation\"}'"
    ∷ [])
