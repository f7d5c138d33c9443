-- ===== src/Config/Production.antt =====
-- What a configuration that `parseConfig` of service/src/config.ts accepts is like.
use mathlib.Core.Path.{subst}
use Prim.Native.Char.{code}
use vcalm_status_service.Common.{
  ℕ, String, ◌≡◌, ◌≢◌, refl, sym, ap, ◌∙◌, Bool, true, false, ◌&&◌, ◌||◌, Option, none, some, arith,
  ◌==◌, string_eq, nat_eq, eq_iff,
}
use vcalm_status_service.Errors.{Result, ok}
use vcalm_status_service.Errors.Results.{>>=-eq-ok, check-eq-ok, refuse_if-eq-ok}
use vcalm_status_service.Tenants.Env.{Env}
use vcalm_status_service.Config.{
  production, StorageMode, SigningMode, TenantRegistryMode, SigningConfig, StorageConfig, Config,
  EnvValues, without_empty_values, parse_values, parse_storage, parse_signing, strip_trailing_slash,
  unfit, config_of, parse_config,
}

-- The text ends in a slash.
abbrev pub ends_in_slash : String → Bool
ends_in_slash String.[] = false
ends_in_slash (String.◌∷◌ c s) = s == "" && code c == b'/' || ends_in_slash s

abbrev is_slash : ℕ → Bool
is_slash c = c == b'/'

pub strip_trailing_slash_lem : (s : String) → ends_in_slash (strip_trailing_slash s) ≡ false
unfolding strip_trailing_slash
strip_trailing_slash_lem String.[] = refl
strip_trailing_slash_lem (String.◌∷◌ c s) =
    ground (arith, strip_trailing_slash_lem s, eq_iff (strip_trailing_slash s) "")

-- What the parts of an accepted configuration come from.
pub record IsAccepted (v : EnvValues) (c : Config) : Type 0 where
  pub fit : unfit v.node_env v.signing_mode v.storage_mode v.tenant_registry_mode ≡ false
  pub storage_read : parse_storage v.storage_mode v.sqlite_file v.database_url ≡ ok c.storage
  pub signing_read : parse_signing v.signing_mode v.signing_service_url ≡ ok c.signing
  pub node_env_same : c.node_env ≡ v.node_env
  pub port_same : c.port ≡ v.port
  pub registry_same : c.tenant_registry ≡ v.tenant_registry_mode
  pub url_stripped : (url : String) × (c.public_base_url ≡ strip_trailing_slash url)

accepted : (v : EnvValues) {c : Config} → config_of v ≡ ok c → IsAccepted v c
unfolding config_of
accepted v {c} h =
    let (fit, h1) = check-eq-ok _ _ h in
    let (storage, stored, h2) =
      >>=-eq-ok (parse_storage v.storage_mode v.sqlite_file v.database_url) _ h1 in
    let (signing, signed, h3) =
      >>=-eq-ok (parse_signing v.signing_mode v.signing_service_url) _ h2 in
    of_ok _ h3 (record {
      fit = refuse_if-eq-ok _ _ fit;
      storage_read = stored;
      signing_read = signed;
      node_env_same = refl;
      port_same = refl;
      registry_same = refl;
      url_stripped = (_, refl);
    })
  where
    of_ok : (a : Config) → ◌≡◌ {A = Result Config} (ok a) (ok c) → IsAccepted v a → IsAccepted v c
    of_ok a e = let same : a ≡ c = cc in subst (IsAccepted v) same

fake_mode :
    (g : SigningMode) (url : Option String) (c : SigningConfig)
    → parse_signing g url ≡ ok c
    → c ≡ SigningConfig.fake
    → g ≡ SigningMode.fake
fake_mode SigningMode.fake url c h e = refl
fake_mode SigningMode.local url c h e = cc
fake_mode SigningMode.http none c h e = cc
fake_mode SigningMode.http (some u) c h e = cc

memory_mode :
    (t : StorageMode) (file : String) (url : Option String) (c : StorageConfig)
    → parse_storage t file url ≡ ok c
    → c ≡ StorageConfig.memory
    → t ≡ StorageMode.memory
memory_mode StorageMode.memory file url c h e = refl
memory_mode StorageMode.sqlite file url c h e = cc
memory_mode StorageMode.postgres file none c h e = cc
memory_mode StorageMode.postgres file (some u) c h e = cc

unfit_memory :
    (g : SigningMode) (r : TenantRegistryMode) → unfit production g StorageMode.memory r ≡ true
unfit_memory SigningMode.fake r = refl
unfit_memory SigningMode.local r = refl
unfit_memory SigningMode.http r = refl

unfit_registry :
    (g : SigningMode) (t : StorageMode) → unfit production g t TenantRegistryMode.memory ≡ true
unfit_registry SigningMode.fake t = refl
unfit_registry SigningMode.local StorageMode.memory = refl
unfit_registry SigningMode.local StorageMode.sqlite = refl
unfit_registry SigningMode.local StorageMode.postgres = refl
unfit_registry SigningMode.http StorageMode.memory = refl
unfit_registry SigningMode.http StorageMode.sqlite = refl
unfit_registry SigningMode.http StorageMode.postgres = refl

env_mode :
    (g : SigningMode) (t : StorageMode) (r : TenantRegistryMode)
    → unfit production g t r ≡ false
    → r ≡ TenantRegistryMode.env
env_mode g t TenantRegistryMode.env h = refl
env_mode g t TenantRegistryMode.memory h = cc (unfit_registry g t, h)

module _ (integer : String → Option ℕ) (is_url : String → Bool) (vars : Env) {c : Config}
    (h : parse_config integer is_url vars ≡ ok c) where
  pub values :
      (v : EnvValues) × (parse_values integer is_url (without_empty_values vars) ≡ ok v)
      × IsAccepted v c
  unfolding parse_config
  values =
      let (v, read, made) =
        >>=-eq-ok (parse_values integer is_url (without_empty_values vars)) config_of h in
      (v, read, accepted v made)

  -- A configuration that is accepted for production has neither the fake signer nor the storage in
  -- memory, and its tenants come from the environment.
  pub parse_config_production :
      c.node_env ≡ production
      → (c.signing ≢ SigningConfig.fake)
        × (c.storage ≢ StorageConfig.memory)
        × (c.tenant_registry ≡ TenantRegistryMode.env)
  parse_config_production p =
      let (v, _, a) = values in
      let fit : unfit production v.signing_mode v.storage_mode v.tenant_registry_mode ≡ false =
        rw (sym a.node_env_same ∙ p) at a.fit in
      (
        λ e.
            let fake =
              fake_mode (v.signing_mode) (v.signing_service_url) (c.signing) a.signing_read e in
            cc
              (sym (ap (λ g. unfit production g v.storage_mode v.tenant_registry_mode) fake) ∙ fit),
        λ e.
            let memory =
              memory_mode (v.storage_mode) (v.sqlite_file) (v.database_url) (c.storage)
                a.storage_read e in
            cc (
              sym (unfit_memory (v.signing_mode) (v.tenant_registry_mode))
              ∙ sym (ap (λ t. unfit production v.signing_mode t v.tenant_registry_mode) memory)
              ∙ fit),
        a.registry_same ∙ env_mode (v.signing_mode) (v.storage_mode) (v.tenant_registry_mode) fit,
      )
