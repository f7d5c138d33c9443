-- ===== src/Provisioning/Command.antt =====
-- service/src/cli/provision-tenant.ts: the command, from its parsed options on. What it prints is a
-- list of lines; `parseArgs` of node:util has read the options, and `path` is the resolved path of the
-- env file. `usage` is the help text.
pub mod Effects
pub mod Outcome
use vcalm_status_service.Common.{
  String, Bool, true, false, Option, none, some, List, [], ◌∷◌, ◌++◌, ◌==◌, string_eq,
  if◌then◌else◌, get_or,
}
use vcalm_status_service.Common.Text.{◌⧺◌}
use vcalm_status_service.Common.Prefix.{join}
use vcalm_status_service.Errors.{
  Result, ok, err, Action, pure, throw, lift, ◌>>=◌, ◌>>◌, provisioning_error,
}
use vcalm_status_service.Errors.Results
use vcalm_status_service.VcSigner.{Cryptosuite, KeyMaterial}
use vcalm_status_service.VcSigner.Signer.{SignatureLibraries}
use vcalm_status_service.Tenants.Env.{list}
use vcalm_status_service.Provisioning.{
  IssuerProfile, profiles, default_profile_id, get_profile, normalize_tenant_id, ProvisionInput,
  ProvisionedTenant, provision_tenant, render_env_block, CrossServiceTarget, signing_service,
  transaction_service, render_cross_service_block, render_ready_curl,
}
use vcalm_status_service.Provisioning.Files.{EnvFile, EnvFileWrite, append_env_block}

-- `values` of `parseArgs`
pub record Options : Type 0 where
  pub tenant : Option String
  pub profile : String
  pub instance_name : String
  pub domains : Option String
  pub emit : List String
  pub print_only : Bool
  pub force : Bool
  pub list_profiles : Bool
  pub help : Bool

-- The env file, if it is there, and what was printed.
pub record Terminal : Type 0 where
  pub file : EnvFile
  pub printed : List String

abbrev pub Command : Type 0
Command = Action Terminal (Unit {0})

-- `console.log`
abbrev pub log : String → Command
log text s = (ok tt, record s { printed = s.printed ++ text ∷ [] })

abbrev pub on_file : {A : Type 0} → Action EnvFile A → Action Terminal A
on_file m s = let (r, file) = m s.file in (r, record s { file = file })

-- `DEFAULT_BASE_URL`
abbrev default_base_url : String
default_base_url = "http://localhost:4008"

abbrev pub log_profiles : List IssuerProfile → Command
log_profiles [] = pure tt
log_profiles (p ∷ ps) =
    log (
      "  "
      ⧺ p.id
      ⧺ (if p.id == default_profile_id then " (default)" else "")
      ⧺ "\n    "
      ⧺ p.summary)
    >> log_profiles ps

-- `listProfiles`
unfoldable pub print_profiles : Command
print_profiles =
    log "Available issuer profiles:\n"
    >> log_profiles profiles
    >> log
        "\ndid:web is not offered yet: it needs its document published before the\ninstance works, and the Multikey web path is unverified in the signing service."

abbrev pub target_of : String → Result CrossServiceTarget
target_of value =
    if value == "signing-service"
    then ok signing_service
    else if value == "transaction-service"
    then ok transaction_service
    else err provisioning_error

unfoldable pub parse_emit_targets : List String → Result (List CrossServiceTarget)
parse_emit_targets [] = ok []
parse_emit_targets (value ∷ values) =
    Results.◌>>=◌ (target_of value)
      λ target. Results.◌>>=◌ (parse_emit_targets values) λ targets. ok (target ∷ targets)

abbrev pub log_domains : List String → Command
log_domains [] = pure tt
log_domains (d ∷ ds) = log ("Authorized domains:  " ⧺ join ", " (d ∷ ds))

abbrev pub log_blocks : ProvisionedTenant → List CrossServiceTarget → Command
log_blocks t [] = pure tt
log_blocks t (target ∷ targets) = do
  block ← lift (render_cross_service_block t target)
  log ("\n" ⧺ block)
  log_blocks t targets

-- What `run` passes to `provisionTenant`.
abbrev pub input_of : Options → String → IssuerProfile → ProvisionInput
input_of options tenant_id profile = record {
  tenant_id = tenant_id;
  profile = profile;
  instance_id = some options.instance_name;
  authorized_domains = some (list options.domains);
  token = none;
  key_material = none;
}

module _ (reg_exp : String → String → Result Bool) (path : String) where
  -- Writes or prints the block; the base URL that the printed call goes to.
  unfoldable pub write_block : Options → ProvisionedTenant → Action Terminal String
  write_block options t =
      if options.print_only
      then (do
        log ("# Nothing was written. Append this to " ⧺ path ⧺ ":\n")
        log (render_env_block t)
        pure default_base_url)
      else (do
        written ← on_file (append_env_block reg_exp (render_env_block t) t.tenant_id options.force)
        log (
            (if written.created then "Created" else "Updated")
            ⧺ " "
            ⧺ path
            ⧺ ":\n\n"
            ⧺ render_env_block t)
        pure (get_or written.base_url default_base_url))

  -- What follows once the tenant is made.
  unfoldable pub announce : Options → List CrossServiceTarget → ProvisionedTenant → Command
  announce options targets t = do
    base_url ← write_block options t
    log ("Issuer DID:          " ⧺ t.did)
    log ("Verification method: " ⧺ t.verification_method)
    log_domains t.authorized_domains
    log_blocks t targets
    log "\nCreate this tenant's first status list:\n"
    log (render_ready_curl t base_url)
    log
        "\nRestart the service first — the registry is read at startup. The token\nabove is not recoverable from anywhere else; it is only in that env file."

module _ (libs : SignatureLibraries) (generated : Cryptosuite → Result KeyMaterial)
    (fresh_token : String) (reg_exp : String → String → Result Bool) (path usage : String) where
  unfoldable pub provision : Options → Option String → Command
  provision options none = throw provisioning_error
  provision options (some name) = do
    targets ← lift (parse_emit_targets options.emit)
    tenant_id ← lift (normalize_tenant_id name)
    profile ← lift (get_profile options.profile)
    t ← lift (provision_tenant libs generated fresh_token (input_of options tenant_id profile))
    announce reg_exp path options targets t

  -- `run`
  unfoldable pub run : Options → Command
  run options =
      if options.help
      then log usage
      else if options.list_profiles
      then print_profiles
      else provision options options.tenant
