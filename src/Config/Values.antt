-- ===== src/Config/Values.antt =====
-- Bounds on the values that `parseConfig` of service/src/config.ts reads, and the configuration that
-- is kept.
use vcalm_status_service.Common.{
  ℕ, String, ◌≡◌, ◌≤◌, refl, ap, ◌∙◌, Bool, false, not, ◌&&◌, Option, none, some, arith, string_eq,
  nat_eq, leb,
}
use vcalm_status_service.Common.Dict
use vcalm_status_service.Errors.{Result, ok, err, config_error}
use vcalm_status_service.Errors.Results.{◌>>=◌, >>=-eq-ok, check-eq-ok, refuse_if-eq-ok, found_or}
use vcalm_status_service.Tenants.Env.{Env}
use vcalm_status_service.Config.{
  Config, EnvValues, StorageMode, SigningMode, TenantRegistryMode, development, info, node_envs,
  log_levels, storage_modes, signing_modes, registry_modes, kept, without_empty_values,
  parse_values, port_of, url, nonempty, one_of, parse_config, get_config, reset_config,
}
use vcalm_status_service.Config.Production.{ends_in_slash, strip_trailing_slash_lem, values}

port_bounds :
    (integer : String → Option ℕ) (is_url : String → Bool) (o : Option String) {n : ℕ}
    → port_of integer is_url o ≡ ok n
    → (1 ≤ n) × (n ≤ 65535)
port_bounds integer is_url none {n} h = let same : 4008 ≡ n = cc in (omega arith, omega arith)
port_bounds integer is_url (some value) {n} h =
    let (m, _, h1) = >>=-eq-ok (found_or (integer value) config_error) _ h in
    let (checked, h2) = check-eq-ok _ (ok m) h1 in
    let within = refuse_if-eq-ok (not (leb 1 m && leb m 65535)) config_error checked in
    let same : m ≡ n = cc h2 in ground arith

module _ (integer : String → Option ℕ) (is_url : String → Bool) where
  port_read :
      (vars : Env) {v : EnvValues}
      → parse_values integer is_url vars ≡ ok v
      → port_of integer is_url (Dict.get "PORT" vars) ≡ ok v.port
  unfolding parse_values
  port_read vars {v} h =
      let (_, _, h1) = >>=-eq-ok (one_of node_envs development (Dict.get "NODE_ENV" vars)) _ h in
      let (port, read, h2) = >>=-eq-ok (port_of integer is_url (Dict.get "PORT" vars)) _ h1 in
      let (_, _, h3) = >>=-eq-ok (url integer is_url (Dict.get "PUBLIC_BASE_URL" vars)) _ h2 in
      let (_, _, h4) = >>=-eq-ok (one_of log_levels info (Dict.get "LOG_LEVEL" vars)) _ h3 in
      let (_, _, h5) =
        >>=-eq-ok (one_of storage_modes StorageMode.memory (Dict.get "STORAGE_MODE" vars)) _ h4 in
      let (_, _, h6) = >>=-eq-ok (nonempty (Dict.get "SQLITE_FILE" vars)) _ h5 in
      let (_, _, h7) = >>=-eq-ok (nonempty (Dict.get "DATABASE_URL" vars)) _ h6 in
      let (_, _, h8) =
        >>=-eq-ok (one_of signing_modes SigningMode.fake (Dict.get "SIGNING_MODE" vars)) _ h7 in
      let (_, _, h9) = >>=-eq-ok (url integer is_url (Dict.get "SIGNING_SERVICE_URL" vars)) _ h8 in
      let (_, _, h10) =
        >>=-eq-ok
          (one_of registry_modes TenantRegistryMode.memory (Dict.get "TENANT_REGISTRY_MODE" vars)) _
          h9 in
      let (_, _, h11) = >>=-eq-ok (nonempty (Dict.get "ACCESS_JWT_SECRET" vars)) _ h10 in
      read ∙ ap (λ r. r >>= λ (x : EnvValues). ok x.port) h11

  module _ (vars : Env) {c : Config} (h : parse_config integer is_url vars ≡ ok c) where
    -- An accepted configuration has a port from 1 up to 65535 and a public base URL that does not
    -- end in a slash.
    pub parse_config_bounds :
        (1 ≤ c.port) × (c.port ≤ 65535) × (ends_in_slash c.public_base_url ≡ false)
    parse_config_bounds =
        let (v, read, a) = values integer is_url vars h in
        let (low, high) =
          port_bounds integer is_url _ (port_read (without_empty_values vars) read) in
        let (whole, stripped) = a.url_stripped in
        (
          omega (arith, a.port_same),
          omega (arith, a.port_same),
          ap ends_in_slash stripped ∙ strip_trailing_slash_lem whole,
        )

  same_kept :
      (d : Config) {c : Config} {s : Option Config}
      → ◌≡◌ {A = Result Config × Option Config} (ok d, some d) (ok c, s)
      → s ≡ some c
  same_kept d h = cc

  kept-some : (r : Result Config) {c : Config} {s : Option Config} → kept r ≡ (ok c, s) → s ≡ some c
  kept-some (ok d) h = same_kept d h
  kept-some (err e) h = cc

  kept_result : (r : Result Config) → (kept r).0 ≡ r
  kept_result (ok c) = refl
  kept_result (err e) = refl

  -- A configuration that get_config returned is returned again, whatever the environment has become
  -- since, until reset_config makes the next call read the environment.
  pub get_config_once :
      (vars later : Env) (cached : Option Config) {c : Config} {s : Option Config}
      → get_config integer is_url vars cached ≡ (ok c, s)
      → (get_config integer is_url later s ≡ (ok c, s))
        × ((get_config integer is_url later (reset_config s)).0 ≡ parse_config integer is_url later)
  unfolding get_config reset_config
  get_config_once vars later (some d) h =
      (rw (same_kept d h) refl, kept_result (parse_config integer is_url later))
  get_config_once vars later none h = (
    rw (kept-some (parse_config integer is_url vars) h) refl,
    kept_result (parse_config integer is_url later),
  )
