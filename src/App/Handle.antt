-- ===== src/App/Handle.antt =====
-- `createApp` and `createHealthCheck`: what stands before the handlers, and the lines that a request
-- writes to the log. Hono, its `cors()` and the schemas are parameters.
use vcalm_status_service.Common.{String, Option, none, some, List, [], ◌∷◌, get_or, if◌then◌else◌}
use vcalm_status_service.Json.{Json, Fields}
use vcalm_status_service.Errors.{Error, Result, ok, err, Action, lift, ◌>>=◌}
use vcalm_status_service.Problem.{blank, without_code, error_handler}
use vcalm_status_service.Tenants.{TenantRecord}
use vcalm_status_service.Auth.{tenant_auth}
use vcalm_status_service.Domains.{Url}
use vcalm_status_service.StatusLists.Bitstring.{BitstringLibrary}
use vcalm_status_service.StatusLists.Manager.{Deps}
use vcalm_status_service.StatusLists.Manager.Effects.{World}
use vcalm_status_service.Config.{LogLevel}
use vcalm_status_service.Services.{Services}
use vcalm_status_service.Routes.Retrieve.{get_status_list_handler}
use vcalm_status_service.Routes.Create.{CreateBody, create_status_list_handler}
use vcalm_status_service.Routes.Update.{
  UpdateCredentialStatusBody, update_credential_status_handler,
}
use vcalm_status_service.Routes.Allocate.{Wrapped, allocate_handler}
use vcalm_status_service.App.{
  Operation, index, healthz, status_lists, status_list, credentials_status,
  credentials_status_allocate, operations, Request, Hono, Answer, banner, healthy, preflight,
  list_created, list_retrieved, entry_allocated, status_updated, problem, unhealthy, status_of,
  Response, LogEntry, request_line, unhandled_error, healthz_failed, write, find_operation,
}

-- What a request finds and may change: the world of the services, and the log.
module _ (services : Services) where
  pub record AppState : Type 0 where
    pub world : World services.signing services.storage
    pub log : List LogEntry

-- The outside of the program: Hono, `hono/jwt`, `URL`, `decodeURIComponent`, the bitstring library, the
-- backend's `ping` and the schemas.
pub record Outer (services : Services) : Type 1 where
  pub hono : Hono
  pub verify : String → String → Option Json
  pub parse_url : String → Option Url
  pub decode_uri_component : String → Option String
  pub bits : BitstringLibrary
  pub ping : services.storage.State → Result (Unit {0})
  pub create_schema : Json → Result CreateBody
  pub update_schema : Json → Result UpdateCredentialStatusBody
  pub credential_schema : Json → Result Fields
  pub wrapped_schema : Json → Result Wrapped

module _ (services : Services) (outer : Outer services) (deps : Deps) (secret : Option String)
    (level : LogLevel) where
  abbrev pub finish :
      {A : Type 0}
      → (A → Answer)
      → AppState services
      → Result A × World services.signing services.storage
      → Result Answer × AppState services
  finish f s (ok a, w) = (ok (f a), record s { world = w })
  finish f s (err e, w) = (err e, record s { world = w })

  -- `createHealthCheck`
  abbrev health : Result (Unit {0}) → Action (AppState services) Answer
  health (ok u) s = (ok healthy, s)
  health (err e) s = (
    ok (unhealthy (without_code blank 503)),
    record s { log = write level (healthz_failed e) s.log },
  )

  unfoldable pub health_check : Action (AppState services) Answer
  health_check s = health (outer.ping s.world.0) s

  -- The middleware `tenantAuth`, before a handler that reads a body.
  abbrev pub for_tenant :
      {A : Type 0}
      → Result TenantRecord
      → (TenantRecord → Action (World services.signing services.storage) A)
      → Action (World services.signing services.storage) A
  for_tenant (err e) handler w = (err e, w)
  for_tenant (ok tenant) handler w = handler tenant w

  unfoldable pub caller : Request → Result TenantRecord
  caller r = tenant_auth outer.verify services.tenants secret r.authorization

  -- The handlers of `createApp`.
  unfoldable pub operate : Operation → String → Request → Action (AppState services) Answer
  operate index id r s = (ok banner, s)
  operate healthz id r s = health_check s
  operate status_list id r s = finish list_retrieved s (
    get_status_list_handler outer.parse_url services.storage services.tenants
        services.public_base_url
        (record { id = id; hosts = r.hosts; if_none_match = r.if_none_match; accept = r.accept })
        s.world.0,
    s.world,
  )
  operate status_lists id r s = finish list_created s (
      for_tenant (caller r)
        (λ tenant. lift r.json >>= λ json.
          create_status_list_handler outer.decode_uri_component outer.parse_url outer.bits
            services.storage services.signing deps outer.create_schema tenant json)
        s.world)
  operate credentials_status_allocate id r s = finish entry_allocated s (
      for_tenant (caller r)
        (λ tenant. lift r.json >>= λ json.
          allocate_handler outer.credential_schema outer.wrapped_schema outer.bits services.storage
            services.signing deps tenant.tenant_id json)
        s.world)
  operate credentials_status id r s = finish status_updated s (
      for_tenant (caller r)
        (λ tenant. lift r.json >>= λ json.
          update_credential_status_handler outer.decode_uri_component outer.parse_url
            services.public_base_url services.storage outer.bits services.signing deps
            outer.update_schema tenant.tenant_id json)
        s.world)

  -- `onError`
  abbrev pub log_failures : Request → List Error → List LogEntry → List LogEntry
  log_failures r [] log = log
  log_failures r (e ∷ failures) log =
      log_failures r failures (write level (unhandled_error e r.method r.path) log)

  abbrev pub on_error : Request → Result Answer × AppState services → Answer × AppState services
  on_error r (ok a, s) = (a, s)
  on_error r (err e, s) =
      let (details, failures) = error_handler e [] in
      (problem details, record s { log = log_failures r failures s.log })

  -- The answer of the handler that is found, or of `notFoundHandler`.
  abbrev pub run_found :
      Request → Option (Operation × String) → AppState services → Answer × AppState services
  run_found r none s = (problem (without_code blank 404), s)
  run_found r (some (op, id)) s = on_error r (operate op id r s)

  abbrev pub dispatch : Request → AppState services → Answer × AppState services
  dispatch r s =
      if outer.hono.is_preflight r
      then (preflight, s)
      else run_found r (find_operation outer.hono operations r) s

  abbrev pub logged : String → Request → Answer × AppState services → Response × AppState services
  logged id r (answer, s) = (
    record { request_id = id; answer = answer },
    record s { log = write level (request_line id r.method r.path (status_of answer)) s.log },
  )

  -- A request to the app, with the id that `requestLogging` makes up for it if it brings none.
  unfoldable pub handle : String → Request → AppState services → Response × AppState services
  handle fresh r s = logged (get_or r.request_id fresh) r (dispatch r s)
