-- ===== src/Tests/Callers.antt =====
-- Callers, tenants, hosts and contexts.
use vcalm_status_service.Common.{
  ℕ, ◌≤◌, ◌<◌, String, ◌≡◌, ◌≢◌, refl, ◌⊎◌, Bool, true, false, ◌||◌, Option, none, some, List, [],
  ◌∷◌, ◌++◌, ◌==◌, arith, All, string_eq, if◌then◌else◌, any, contains,
}
use vcalm_status_service.Common.Ascii.{trim}
use vcalm_status_service.Json.{Json, obj, field, end, str}
use vcalm_status_service.Errors.{ok, err, problem_error}
use vcalm_status_service.VcSigner.{UnsignedCredential, one, url}
use vcalm_status_service.VcSigner.Credential.{
  context_entries, with_required_contexts, merge_contexts,
}
use vcalm_status_service.Tenants.{TenantRecord}
use vcalm_status_service.Tenants.Memory.{
  MemoryTenantRegistry, empty_registry, memory_tenants, add, add_all, get_tenant,
  get_tenant_by_token, IsValid,
}
use vcalm_status_service.Common.Ascii.{lower_case}
use vcalm_status_service.Auth.{bearer_token_of, resolve_tenant, tenant_auth}
use vcalm_status_service.Auth.Bearer.{IsAccessToken, tenant_auth_sound}
use vcalm_status_service.Domains.{Url, hostname, authorized_hosts, is_authorized_host}
use vcalm_status_service.Domains.Hosts.{has_host, is_authorized_host_lem}
use vcalm_status_service.Problem.{to_problem_details, error_handler, error_handler-is_service_fault}
use vcalm_status_service.Tests.Sample.{acme, credential}

-- A registry of one tenant, and one access token that is valid.
abbrev registry : MemoryTenantRegistry
registry = (add_all (acme ∷ []) empty_registry).1

abbrev verify : String → String → Option Json
verify token secret = if token == "jwt" then some (obj (field "sub" (str "ACME") end)) else none

auth_tests :
    (tenant_auth verify (memory_tenants registry) none (some "bearer token-1") ≡ ok acme)
    × (tenant_auth verify (memory_tenants registry) (some "secret") (some "Bearer jwt") ≡ ok acme)
    × (tenant_auth verify (memory_tenants registry) none (some "Bearer jwt")
        ≡ err (problem_error 401))
    × (tenant_auth verify (memory_tenants registry) none (some "Basic token-1")
        ≡ err (problem_error 401))
unfolding tenant_auth resolve_tenant bearer_token_of trim add add_all get_tenant get_tenant_by_token
auth_tests = (refl, refl, refl, refl)

abc_is_not_empty : ◌≢◌ {A = String} "abc" ""
abc_is_not_empty e = cc

tenant_auth_sound_example :
    ((sub : String) × IsAccessToken verify (memory_tenants registry) (some "secret") "jwt" sub
      × (get_tenant registry (lower_case sub) ≡ some acme))
    ⊎ ((sub : String) → ¬ IsAccessToken verify (memory_tenants registry) (some "secret") "jwt" sub)
      × (get_tenant_by_token registry "jwt" ≡ some acme)
unfolding tenant_auth resolve_tenant bearer_token_of trim add add_all get_tenant
tenant_auth_sound_example =
    tenant_auth_sound verify (memory_tenants registry) (some "secret") "Bearer jwt" "jwt" acme refl
      refl

no_tenant : (id : String) → get_tenant empty_registry id ≡ none
unfolding get_tenant
no_tenant id = refl

no_token : (token : String) → get_tenant_by_token empty_registry token ≡ none
unfolding get_tenant_by_token
no_token token = ground arith

abbrev token_1 : String
token_1 = "token-1"

abbrev globex : TenantRecord
globex = record acme { tenant_id = "globex"; tokens = "token-2" ∷ [] }

empty_registry-IsValid : IsValid empty_registry
empty_registry-IsValid = record { known = λ token owner e. cc; keyed = λ id t e. cc }

-- Three addresses.
abbrev parse_url : String → Option Url
parse_url s =
    if s == "https://status.example" || s == "http://status.example"
    then some (record { protocol = "https:"; hostname = "status.example"; pathname = "/" })
    else if s == "http://acme.example:8080"
    then some (record { protocol = "http:"; hostname = "ACME.example"; pathname = "/" })
    else none

abbrev branded : TenantRecord
branded = record acme { authorized_domains = some ("acme.example:8080" ∷ []) }

is_authorized_host_lem_example :
    is_authorized_host parse_url branded (some "acme.example:8080") "https://status.example" ≡ (
      any (λ d. has_host "acme.example" (hostname parse_url d)) ("acme.example:8080" ∷ [])
      || has_host "acme.example" (hostname parse_url "https://status.example"))
unfolding hostname trim
is_authorized_host_lem_example =
    is_authorized_host_lem parse_url branded "acme.example:8080" "acme.example"
      "https://status.example" refl

host_tests :
    (is_authorized_host parse_url branded (some "acme.example:8080") "https://status.example"
      ≡ true)
    × (is_authorized_host parse_url acme (some "acme.example:8080") "https://status.example"
        ≡ false)
    × (is_authorized_host parse_url acme (some "status.example") "https://status.example" ≡ true)
unfolding is_authorized_host hostname trim authorized_hosts vcalm_status_service.Common.add
host_tests = (refl, refl, refl)

abbrev unsigned : UnsignedCredential
unsigned = record (credential.unsigned) { context = one "https://www.w3.org/ns/credentials/v2" }

abbrev required : List String
required = "https://www.w3.org/ns/credentials/v2" ∷ "https://w3id.org/security/suites/x/v1" ∷ []

with_required_contexts_test :
    context_entries (with_required_contexts unsigned required).context
    ≡ url "https://www.w3.org/ns/credentials/v2" ∷ url "https://w3id.org/security/suites/x/v1" ∷ []
unfolding with_required_contexts merge_contexts
with_required_contexts_test = refl

error_handler-is_service_fault_example :
    error_handler (problem_error 404) [] ≡ (to_problem_details (problem_error 404), [])
error_handler-is_service_fault_example = error_handler-is_service_fault (problem_error 404) []
