-- ===== src/Routes/Retrieve.antt =====
-- `GET /status-lists/:id` of service/src/routes/status-lists.ts.
pub mod Caching
use Prim.Native.String
use vcalm_status_service.Common.{
  ℕ, ◌/◌, ◌<◌, ◌+◌, String, ◌≡◌, ◌≢◌, refl, Bool, true, false, Option, none, some, List, [], ◌∷◌,
  arith, ◌==◌, string_eq, if◌then◌else◌, get_or, ltb,
}
use vcalm_status_service.Common.Text.{◌⧺◌, decimal}
use vcalm_status_service.Common.Ascii.{lower_case, is_part}
use vcalm_status_service.Errors.{Result, ok, err, problem_error, Error}
use vcalm_status_service.VcSigner.{VerifiableCredential}
use vcalm_status_service.Storage.{StatusListRecord, StorageService}
use vcalm_status_service.Tenants.{TenantRecord, TenantRegistry}
use vcalm_status_service.Domains.{Url, HostHeaders, effective_host, is_authorized_host}

pub record RetrieveRequest : Type 0 where
  pub id : String
  pub hosts : HostHeaders
  pub if_none_match : Option String
  pub accept : Option String

pub data RetrieveResponse : Type 0 where
  not_modified : (etag cache_control : String) → RetrieveResponse
  content : (etag cache_control content_type : String) → VerifiableCredential → RetrieveResponse

-- `cacheControlFor`
abbrev pub cache_control_for : StatusListRecord → String
cache_control_for r = cache_control (r.characteristics.ttl)
  where
    cache_control : Option ℕ → String
    cache_control none = "no-cache"
    cache_control (some ttl) = "public, max-age=" ⧺ decimal (ttl / 1000)

-- `etagFor`
abbrev pub etag_for : StatusListRecord → String
etag_for r = "\"" ⧺ decimal (r.version) ⧺ "\""

-- `contentTypeFor`
abbrev pub content_type_for : Option String → String
content_type_for none = "application/json"
content_type_for (some accept) =
    if is_part "application/vc" (lower_case accept) then "application/vc" else "application/json"

-- A tenant that has left the registry.
abbrev pub departed : String → TenantRecord
departed id = record {
  tenant_id = id;
  tokens = [];
  issuer_instances = [];
  default_instance_id = none;
  authorized_domains = none;
}

abbrev is_match : Option String → String → Bool
is_match none etag = false
is_match (some sent) etag = sent == etag

-- The answer, once the list may be shown.
abbrev pub respond : RetrieveRequest → StatusListRecord → RetrieveResponse
respond c r =
    if is_match c.if_none_match (etag_for r)
    then not_modified (etag_for r) (cache_control_for r)
    else content (etag_for r) (cache_control_for r) (content_type_for c.accept)
        (r.signed_credential)

module _ (parse_url : String → Option Url) (storage : StorageService) (tenants : TenantRegistry)
    (public_base_url : String) where
  abbrev pub is_served : RetrieveRequest → StatusListRecord → Bool
  is_served c r =
      is_authorized_host parse_url
        (get_or (tenants.get_tenant (r.tenant_id)) (departed (r.tenant_id)))
        (effective_host parse_url c.hosts) public_base_url

  abbrev retrieve : RetrieveRequest → Option StatusListRecord → Result RetrieveResponse
  retrieve c none = err (problem_error 404)
  retrieve c (some r) = if is_served c r then ok (respond c r) else err (problem_error 404)

  -- `getStatusListHandler`
  unfoldable pub get_status_list_handler : RetrieveRequest → storage.State → Result RetrieveResponse
  get_status_list_handler c s = retrieve c (storage.get_status_list c.id s)
