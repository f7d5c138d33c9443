-- ===== src/Tests/Requests.antt =====
-- Requests to the app, with the sample tenant and the sample storage.
use vcalm_status_service.Common.{
  String, ◌≡◌, ◌≢◌, refl, inr, true, false, Option, none, some, List, [], ◌∷◌, arith, ◌==◌,
  string_eq, if◌then◌else◌,
}
use vcalm_status_service.Common.Dict
use vcalm_status_service.Common.Ascii.{trim}
use vcalm_status_service.Json.{Json, null, str}
use vcalm_status_service.Errors.{Result, ok, err, problem_error, plain_error, zod_error}
use vcalm_status_service.Problem.{to_problem_details, error_handler}
use vcalm_status_service.Tenants.Memory.{
  add, add_all, empty_registry, memory_tenants, get_tenant, get_tenant_by_token,
}
use vcalm_status_service.Auth.{bearer_token_of, resolve_tenant, tenant_auth}
use vcalm_status_service.Storage.{revocation}
use vcalm_status_service.Storage.Memory.{memory_storage}
use vcalm_status_service.Storage.Memory.Refines.{memory_contract}
use vcalm_status_service.Config.{info}
use vcalm_status_service.Logger.{thrown, plain, LogFields, Logger}
use vcalm_status_service.Services.{Services}
use vcalm_status_service.Routes.Update.{
  UpdateCredentialStatusBody, update_credential_status_handler,
}
use vcalm_status_service.App.{
  Method, get, post, Operation, credentials_status, credentials_status_allocate, Request, banner,
  problem, status_of, LogEntry, request_line, unhandled_error, write,
}
use vcalm_status_service.App.Handle.{AppState, Outer, caller, operate, handle}
use vcalm_status_service.App.Access.{handle_reads}
use vcalm_status_service.App.Atomic.{handle_atomic}
use vcalm_status_service.App.Faults.{handle_refused, handle_malformed}
use vcalm_status_service.App.Logs.{IsTold, handle_logs}
use vcalm_status_service.Tests.Bits.{bits}
use vcalm_status_service.Tests.Sample.{acme, deps, signing, outside, store}

abbrev services : Services
services = record {
  storage = memory_storage;
  signing = signing;
  tenants = memory_tenants (add_all (acme ∷ []) empty_registry).1;
  public_base_url = "https://status.example";
}

-- A body that names an entry of a type that is not known.
abbrev update : UpdateCredentialStatusBody
update = record {
  credential_id = "urn:c1";
  credential_status = record {
    type = "Other";
    status_purpose = revocation;
    status_list_index = none;
    status_list_credential = none;
  };
  status = true;
}

abbrev outer : Outer services
outer = record {
  hono = record {
    matches = λ pattern path. if pattern == path then some "" else none;
    is_preflight = λ r. false;
  };
  verify = λ token secret. none;
  parse_url = λ s. none;
  decode_uri_component = λ s. some s;
  bits = bits;
  ping = λ s. err plain_error;
  create_schema = λ j. err zod_error;
  update_schema = λ j. ok update;
  credential_schema = λ j. err zod_error;
  wrapped_schema = λ j. err zod_error;
}

abbrev state : AppState services
state = record { world = (store, outside); log = [] }

abbrev request : Method → String → Option String → Result Json → Request
request method path authorization json = record {
  method = method;
  path = path;
  request_id = some "trace-123";
  authorization = authorization;
  hosts = record { forwarded_host = none; host = none; url = "" };
  if_none_match = none;
  accept = none;
  json = json;
}

abbrev unauthorized : Request
unauthorized = request post "/credentials/status" none (ok null)

abbrev unreadable : Request
unreadable = request post "/credentials/status" (some "Bearer token-1") (err plain_error)

abbrev unknown_type : Request
unknown_type = request post "/credentials/status" (some "Bearer token-1") (ok null)

refused_test : caller services outer deps none info unauthorized ≡ err (problem_error 401)
unfolding caller tenant_auth
refused_test = refl

known_test : caller services outer deps none info unreadable ≡ ok acme
unfolding caller tenant_auth resolve_tenant bearer_token_of trim add add_all get_tenant
    get_tenant_by_token
known_test = refl

-- The banner, and the one line that the request writes.
banner_test :
    handle services outer deps none info "fresh" (request get "/" none (err plain_error)) state ≡ (
      record { request_id = "trace-123"; answer = banner },
      record state { log = request_line "trace-123" get "/" 200 ∷ [] },
    )
unfolding handle operate
banner_test = refl

handle_reads_example :
    (handle services outer deps none info "fresh" unauthorized state).1.world ≡ (store, outside)
handle_reads_example =
    handle_reads services outer deps none info "fresh" unauthorized state
      (inr (problem_error 401, refused_test))

handle_refused_example :
    ((handle services outer deps none info "fresh" unauthorized state).0.answer
      ≡ problem (to_problem_details (problem_error 401)))
    × ((handle services outer deps none info "fresh" unauthorized state).1.world ≡ (store, outside))
handle_refused_example =
    handle_refused services outer deps none info "fresh" unauthorized state
      {op = credentials_status} {id = ""} refl refl refl (problem_error 401) refused_test

handle_malformed_example :
    (status_of (handle services outer deps none info "fresh" unreadable state).0.answer ≡ 500)
    × ((handle services outer deps none info "fresh" unreadable state).1.world ≡ (store, outside))
    × ((handle services outer deps none info "fresh" unreadable state).1.log
        ≡ unhandled_error plain_error post "/credentials/status"
          ∷ request_line "trace-123" post "/credentials/status" 500
          ∷ [])
handle_malformed_example =
    handle_malformed services outer deps none info "fresh" unreadable state
      {op = credentials_status} {id = ""} refl refl refl acme known_test refl

no_allocation :
    (id : String)
    → ◌≢◌ {A = Option (Operation × String)}
        (some (credentials_status, ""))
        (some (credentials_status_allocate, id))
no_allocation id e = cc

unknown_type_status :
    status_of (handle services outer deps none info "fresh" unknown_type state).0.answer ≡ 400
unfolding handle operate caller tenant_auth resolve_tenant bearer_token_of trim add add_all
    get_tenant get_tenant_by_token update_credential_status_handler error_handler to_problem_details
unknown_type_status = refl

handle_atomic_example :
    (handle services outer deps none info "fresh" unknown_type state).1.world.0 ≡ store
handle_atomic_example =
    handle_atomic services outer deps none info memory_contract "fresh" unknown_type state
      no_allocation (omega (arith, unknown_type_status))

handle_logs_example :
    ((handle services outer deps none info "fresh" unreadable state).0.request_id ≡ "trace-123")
    × ((failures : List LogEntry) × ((handle services outer deps none info "fresh" unreadable
            state).1.log
          ≡ write info
              (request_line
                (handle services outer deps none info "fresh" unreadable state).0.request_id
                post
                "/credentials/status"
                (status_of
                  (handle services outer deps none info "fresh" unreadable state).0.answer))
              failures)
        × IsTold
            (status_of (handle services outer deps none info "fresh" unreadable state).0.answer)
            failures)
handle_logs_example = handle_logs services outer deps none info "fresh" unreadable state

-- A logger of the service, and a line whose own fields replace the message.
abbrev logger : Logger
logger = record { level = info; base = ("service", plain (str "status")) ∷ [] }

abbrev fields : LogFields
fields = ("msg", plain (str "other")) ∷ ("err", thrown "Error" "refused" none) ∷ []
