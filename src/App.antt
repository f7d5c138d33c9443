-- ===== src/App.antt =====
-- service/src/app.ts and service/src/health.ts: the routes that the service answers, what a request
-- is, and what it is answered with. Hono is a parameter.
pub mod Handle
pub mod Access
pub mod Faults
pub mod Logs
pub mod Atomic
use vcalm_status_service.Common.{
  ℕ, String, Bool, true, false, Option, none, some, List, [], ◌∷◌, ◌++◌, get_or, if◌then◌else◌,
  ◌&&◌,
}
use vcalm_status_service.Json.{Json, Fields}
use vcalm_status_service.Errors.{Error, Result, ok, err, Action, problem_error, lift, ◌>>=◌}
use vcalm_status_service.Problem.{ProblemDetails, blank, without_code, error_handler}
use vcalm_status_service.Tenants.{TenantRecord}
use vcalm_status_service.Auth.{tenant_auth}
use vcalm_status_service.Domains.{Url, HostHeaders}
use vcalm_status_service.Storage.{StorageService}
use vcalm_status_service.StatusLists.Bitstring.{BitstringLibrary}
use vcalm_status_service.StatusLists.Manager.{Deps}
use vcalm_status_service.StatusLists.Manager.Effects.{World}
use vcalm_status_service.Config.{LogLevel, info, error}
use vcalm_status_service.Logger.{is_logged}
use vcalm_status_service.Services.{Services}
use vcalm_status_service.Routes.Retrieve.{
  RetrieveResponse, not_modified, content, get_status_list_handler,
}
use vcalm_status_service.Routes.Create.{CreateBody, CreateResponse, create_status_list_handler}
use vcalm_status_service.Routes.Update.{
  UpdateCredentialStatusBody, UpdateResponse, update_credential_status_handler,
}
use vcalm_status_service.Routes.Allocate.{Wrapped, allocate_handler}

pub data Method : Type 0 where
  get post head : Method
  other : String → Method

abbrev pub same_method : Method → Method → Bool
same_method get get = true
same_method post post = true
same_method _ _ = false

-- Hono answers a HEAD as it does a GET, and leaves out the body.
abbrev pub served_as : Method → Method
served_as head = get
served_as m = m

-- The keys of `routes`.
pub data Operation : Type 0 where
  index healthz status_lists status_list credentials_status credentials_status_allocate : Operation

-- `routes`
abbrev pub pattern : Operation → String
pattern index = "/"
pattern healthz = "/healthz"
pattern status_lists = "/status-lists"
pattern status_list = "/status-lists/:id"
pattern credentials_status = "/credentials/status"
pattern credentials_status_allocate = "/credentials/status/allocate"

abbrev pub method_of : Operation → Method
method_of index = get
method_of healthz = get
method_of status_lists = post
method_of status_list = get
method_of credentials_status = post
method_of credentials_status_allocate = post

-- The order in which `createApp` registers the handlers.
abbrev pub operations : List Operation
operations =
    index ∷ healthz ∷ status_lists ∷ status_list ∷ credentials_status_allocate ∷ credentials_status
    ∷ []

-- `json` is what `c.req.json()` returns or throws, and `hosts` what tells the host that was asked.
pub record Request : Type 0 where
  pub method : Method
  pub path : String
  pub request_id : Option String
  pub authorization : Option String
  pub hosts : HostHeaders
  pub if_none_match : Option String
  pub accept : Option String
  pub json : Result Json

-- Hono: the `id` of a path that a pattern matches, empty where the pattern has none; and whether
-- `cors()` answers a request by itself, as a preflight.
pub record Hono : Type 0 where
  pub matches : String → String → Option String
  pub is_preflight : Request → Bool

pub data Answer : Type 0 where
  banner healthy preflight : Answer
  list_created : CreateResponse → Answer
  list_retrieved : RetrieveResponse → Answer
  entry_allocated : Fields → Answer
  status_updated : UpdateResponse → Answer
  problem unhealthy : ProblemDetails → Answer

-- The HTTP status of an answer.
abbrev pub status_of : Answer → ℕ
status_of banner = 200
status_of healthy = 200
status_of preflight = 204
status_of (list_created r) = 201
status_of (list_retrieved (not_modified etag cache)) = 304
status_of (list_retrieved (content etag cache type credential)) = 200
status_of (entry_allocated credential) = 200
status_of (status_updated r) = 200
status_of (problem details) = details.status
status_of (unhealthy details) = details.status

-- `request_id` is the header `X-Request-Id`.
pub record Response : Type 0 where
  pub request_id : String
  pub answer : Answer

-- A line of the log, without the time that the request took.
pub data LogEntry : Type 0 where
  request_line : (id : String) (method : Method) (path : String) (status : ℕ) → LogEntry
  unhandled_error : Error → (method : Method) (path : String) → LogEntry
  healthz_failed : Error → LogEntry

abbrev pub line_level : LogEntry → LogLevel
line_level (request_line id method path status) = info
line_level (unhandled_error e method path) = error
line_level (healthz_failed e) = error

-- The log of a logger of a level.
abbrev pub write : LogLevel → LogEntry → List LogEntry → List LogEntry
write level entry log = if is_logged level (line_level entry) then log ++ entry ∷ [] else log

abbrev pub found_at :
    Bool → Operation → Option String → Option (Operation × String) → Option (Operation × String)
found_at true op (some id) rest = some (op, id)
found_at _ op _ rest = rest

module _ (hono : Hono) where
  -- The first operation that answers the request.
  abbrev pub find_operation : List Operation → Request → Option (Operation × String)
  find_operation [] r = none
  find_operation (op ∷ rest) r =
      found_at (same_method (method_of op) (served_as r.method)) op
        (hono.matches (pattern op) r.path) (find_operation rest r)
