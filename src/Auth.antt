-- ===== src/Auth.antt =====
-- service/src/auth.ts: who the caller is. `verify` of hono/jwt is a parameter: it gives the payload
-- of a valid HS256 token, and `none` where it throws.
pub mod Bearer
use Prim.Native.String
use vcalm_status_service.Common.{
  ℕ, String, ◌≡◌, ◌≢◌, refl, sym, ◌∙◌, ap, Bool, true, false, Option, none, some, arith, ◌==◌, ◌||◌,
  string_eq, if◌then◌else◌, eq_iff, Bool-cases, Option-cases, inl, inr, get_or, is_some,
}
use vcalm_status_service.Common.Text.{◌⧺◌}
use vcalm_status_service.Common.Ascii.{lower_case, trim, cut}
use vcalm_status_service.Json.{Json, null, bool, num, str, arr, obj, Fields, member}
use vcalm_status_service.Errors.{Result, ok, err, problem_error}
use vcalm_status_service.Tenants.{TenantRecord, TenantRegistry}

-- `token === '' ? undefined : token`
abbrev nonempty : String → Option String
nonempty s = if s == "" then none else some s

-- `bearerToken`, of a header that is there. What `split(' ')` and `join(' ')` make of the rest is the
-- text behind the first space.
unfoldable pub bearer_token_of : String → Option String
bearer_token_of authorization =
    let (scheme, rest) = cut b' ' authorization in
    if authorization == ""
    then none
    else if lower_case scheme == "bearer"
    then nonempty (trim (get_or rest ""))
    else none

abbrev pub bearer_token : Option String → Option String
bearer_token none = none
bearer_token (some authorization) = bearer_token_of authorization

-- `payload?.sub`, if it is a text that is not empty, in lower case.
abbrev pub subject_text : Option Json → Option String
subject_text (some (str sub)) = if sub == "" then none else some (lower_case sub)
subject_text _ = none

abbrev subject : Json → Option Json
subject (obj fs) = member "sub" fs
subject _ = none

abbrev pub subject_of : Option Json → Option String
subject_of none = none
subject_of (some payload) = subject_text (subject payload)

abbrev tenant_of_caller : String → TenantRegistry → Option String → Option TenantRecord
tenant_of_caller token tenants (some tenant_id) = tenants.get_tenant tenant_id
tenant_of_caller token tenants none = tenants.get_tenant_by_token token

module _ (verify : String → String → Option Json) where
  abbrev checked : String → String → Option String
  checked token secret = if secret == "" then none else subject_of (verify token secret)

  -- `tenantIdFromAccessToken`
  abbrev pub tenant_id_from_access_token : String → Option String → Option String
  tenant_id_from_access_token token none = none
  tenant_id_from_access_token token (some secret) = checked token secret

  -- `resolveTenant`
  unfoldable pub resolve_tenant : String → TenantRegistry → Option String → Option TenantRecord
  resolve_tenant token tenants secret =
      tenant_of_caller token tenants (tenant_id_from_access_token token secret)

  abbrev pub authenticated : Option TenantRecord → Result TenantRecord
  authenticated none = err (problem_error 401)
  authenticated (some tenant) = ok tenant

  abbrev pub authenticate : TenantRegistry → Option String → Option String → Result TenantRecord
  authenticate tenants secret none = err (problem_error 401)
  authenticate tenants secret (some token) = authenticated (resolve_tenant token tenants secret)

  -- `createTenantAuth`: the tenant that the handlers see, or 401.
  unfoldable pub tenant_auth : TenantRegistry → Option String → Option String → Result TenantRecord
  tenant_auth tenants secret authorization =
      authenticate tenants secret (bearer_token authorization)
