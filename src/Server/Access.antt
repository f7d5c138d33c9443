-- ===== src/Server/Access.antt =====
-- Whom the service that is started with production as its environment lets write.
use mathlib.Core.Path.{subst}
use vcalm_status_service.Common.{
  ℕ, String, ◌≡◌, refl, ap, sym, ◌∙◌, inl, inr, Bool, true, false, Option, none, some, Member,
  contains, string_eq, Option-cases,
}
use vcalm_status_service.Common.Text.{◌⧺◌}
use vcalm_status_service.Errors.{ok, err, problem_error}
use vcalm_status_service.Errors.Results.{>>=-eq-ok}
use vcalm_status_service.Tenants.Env.{Env, list}
use vcalm_status_service.Auth.{bearer_token, resolve_tenant, tenant_auth}
use vcalm_status_service.StatusLists.Manager.{Deps}
use vcalm_status_service.Config.{Config, LogLevel, production, parse_config}
use vcalm_status_service.Services.{Services, Platform, create_services}
use vcalm_status_service.Services.Selects.{create_services_production}
use vcalm_status_service.App.{Request}
use vcalm_status_service.App.Handle.{AppState, Outer, caller, handle}
use vcalm_status_service.App.Access.{handle_reads}
use vcalm_status_service.Server.{start, serve}

module _ (services : Services) (outer : Outer services) (deps : Deps) (level : LogLevel) where
  -- Without a secret for access tokens, a token that no tenant holds lets nobody in.
  unknown_token :
      (r : Request) (token : String)
      → bearer_token r.authorization ≡ some token
      → services.tenants.get_tenant_by_token token ≡ none
      → caller services outer deps none level r ≡ err (problem_error 401)
  unfolding caller tenant_auth resolve_tenant
  unknown_token r token brought absent = rw (brought, absent) refl

module _ (integer : String → Option ℕ) (is_url : String → Bool) (platform : Platform) (vars : Env)
    {config : Config} {services : Services}
    (started : start integer is_url platform vars ≡ ok (config, services)) where
  parts :
      (parse_config integer is_url vars ≡ ok config)
      × (create_services platform config vars ≡ ok services)
  unfolding start
  parts =
      let (c, read, rest) = >>=-eq-ok (parse_config integer is_url vars) _ started in
      let (s, made, same) = >>=-eq-ok (create_services platform c vars) _ rest in
      let pair : (c, s) ≡ (config, services) = cc in
      let config_is : c ≡ config = ap (λ (p : Config × Services). p.0) pair in
      let services_is : s ≡ services = ap (λ (p : Config × Services). p.1) pair in
      (
        read ∙ ap ok config_is,
        sym (ap (λ x. create_services platform x vars) config_is) ∙ made ∙ ap ok services_is,
      )

  module _ (prod : config.node_env ≡ production) (no_secret : config.access_jwt_secret ≡ none)
      (outer : Outer services) (deps : Deps) where
    unlisted :
        (token : String)
        → ((name value : String)
            → Member ("TENANT_TOKEN_" ⧺ name, value) vars
            → contains token (list (some value)) ≡ false)
        → services.tenants.get_tenant_by_token token ≡ none
    unlisted token free = elim (Option-cases (services.tenants.get_tenant_by_token token)) [
      | inl absent ↦ absent
      | inr (t, found) ↦
          let (name, value, set, listed, _) =
            create_services_production platform config vars services parts.1 integer is_url parts.0
              prod token found in
          let clash : true ≡ false = sym listed ∙ free name value set in cc
    ]

    -- Where the service was started from an environment with production as its node environment and
    -- with no secret for access tokens: a request whose bearer token is listed in no variable
    -- TENANT_TOKEN_<name> of that environment changes nothing of what the service keeps, whatever
    -- its method, path and body are.
    pub serve_refuses :
        (fresh : String) (r : Request) (s : AppState services) (token : String)
        → bearer_token r.authorization ≡ some token
        → ((name value : String)
            → Member ("TENANT_TOKEN_" ⧺ name, value) vars
            → contains token (list (some value)) ≡ false)
        → (serve config services outer deps fresh r s).1.world ≡ s.world
    unfolding serve
    serve_refuses fresh r s token brought free =
        subst
          (λ secret.
            (handle services outer deps secret config.log_level fresh r s).1.world ≡ s.world)
          (sym no_secret)
          (handle_reads services outer deps none config.log_level fresh r s (
            inr (
              problem_error 401,
              unknown_token services outer deps config.log_level r token brought
                  (unlisted token free),
            )))
