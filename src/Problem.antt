-- ===== src/Problem.antt =====
-- service/src/problem-details.ts: the problem document for a thrown value, without its detail text.
use vcalm_status_service.Common.{
  ℕ, ◌≤◌, ◌<◌, String, ◌≡◌, Bool, true, false, Option, none, some, List, [], ◌∷◌, ◌++◌, arith, ◌==◌,
  nat_eq, if◌then◌else◌, leb,
}
use vcalm_status_service.Errors.{
  StatusListErrorCode, StorageErrorCode, SigningServiceErrorCode, SigningErrorCode, Error,
  list_too_short, unsupported_characteristics, list_purpose_mismatch, issuer_instance_unavailable,
  index_out_of_range, credential_not_allocated, list_exhausted, duplicate_list, index_taken,
  credential_already_allocated, signing_unavailable, signing_rejected, signing_misconfigured,
  unsupported_cryptosuite, issuer_mismatch, invalid_key_material, missing_context,
  invalid_credential, status_list_error, storage_error, signing_service_error, signing_error,
  problem_error, zod_error, http_exception, plain_error, tenant_env_error, config_error,
  provisioning_error,
}

pub record ProblemDetails : Type 0 where
  pub type : String
  pub title : String
  pub status : ℕ
  pub code : Option String

-- `ProblemType`
abbrev pub blank : String
blank = "about:blank"

abbrev validation : String
validation = "urn:skybridge:vcalm-status-service:problem:validation"

-- `TITLES`
abbrev titles : List (ℕ × String)
titles =
    (400, "Bad Request")
    ∷ (401, "Unauthorized")
    ∷ (403, "Forbidden")
    ∷ (404, "Not Found")
    ∷ (405, "Method Not Allowed")
    ∷ (409, "Conflict")
    ∷ (415, "Unsupported Media Type")
    ∷ (422, "Unprocessable Content")
    ∷ (500, "Internal Server Error")
    ∷ (503, "Service Unavailable")
    ∷ []

abbrev title_in : List (ℕ × String) → ℕ → String
title_in [] status = if leb 500 status then "Server Error" else "Request Error"
title_in ((n, title) ∷ rest) status = if n == status then title else title_in rest status

-- `titleForStatus`
abbrev pub title_for_status : ℕ → String
title_for_status status = title_in titles status

abbrev pub status_list_status : StatusListErrorCode → ℕ
status_list_status list_too_short = 400
status_list_status unsupported_characteristics = 400
status_list_status StatusListErrorCode.list_not_found = 404
status_list_status list_purpose_mismatch = 400
status_list_status issuer_instance_unavailable = 500
status_list_status index_out_of_range = 400
status_list_status credential_not_allocated = 404
status_list_status list_exhausted = 409

abbrev pub storage_status : StorageErrorCode → ℕ
storage_status StorageErrorCode.list_not_found = 404
storage_status duplicate_list = 409
storage_status index_taken = 409
storage_status credential_already_allocated = 409

abbrev pub signing_service_status : SigningServiceErrorCode → ℕ
signing_service_status signing_unavailable = 503
signing_service_status signing_rejected = 502
signing_service_status signing_misconfigured = 500

-- The codes as the program writes them.
abbrev status_list_code : StatusListErrorCode → String
status_list_code list_too_short = "list-too-short"
status_list_code unsupported_characteristics = "unsupported-characteristics"
status_list_code StatusListErrorCode.list_not_found = "list-not-found"
status_list_code list_purpose_mismatch = "list-purpose-mismatch"
status_list_code issuer_instance_unavailable = "issuer-instance-unavailable"
status_list_code index_out_of_range = "index-out-of-range"
status_list_code credential_not_allocated = "credential-not-allocated"
status_list_code list_exhausted = "list-exhausted"

abbrev storage_code : StorageErrorCode → String
storage_code StorageErrorCode.list_not_found = "list-not-found"
storage_code duplicate_list = "duplicate-list"
storage_code index_taken = "index-taken"
storage_code credential_already_allocated = "credential-already-allocated"

abbrev signing_service_code : SigningServiceErrorCode → String
signing_service_code signing_unavailable = "signing-unavailable"
signing_service_code signing_rejected = "signing-rejected"
signing_service_code signing_misconfigured = "signing-misconfigured"

abbrev signing_code : SigningErrorCode → String
signing_code unsupported_cryptosuite = "unsupported-cryptosuite"
signing_code issuer_mismatch = "issuer-mismatch"
signing_code invalid_key_material = "invalid-key-material"
signing_code missing_context = "missing-context"
signing_code invalid_credential = "invalid-credential"

abbrev with_code : ℕ → String → ProblemDetails
with_code status code = record {
  type = blank;
  title = title_for_status status;
  status = status;
  code = some code;
}

abbrev pub without_code : String → ℕ → ProblemDetails
without_code type status = record {
  type = type;
  title = title_for_status status;
  status = status;
  code = none;
}

-- `domainProblem`
abbrev pub domain_problem : Error → Option ProblemDetails
domain_problem (status_list_error c) = some (with_code (status_list_status c) (status_list_code c))
domain_problem (storage_error c) = some (with_code (storage_status c) (storage_code c))
domain_problem (signing_service_error c) =
    some (with_code (signing_service_status c) (signing_service_code c))
domain_problem (signing_error c) = some (with_code 500 (signing_code c))
domain_problem _ = none

abbrev other_problem : Error → ProblemDetails
other_problem zod_error = without_code validation 400
other_problem (http_exception status) = without_code blank status
other_problem _ = without_code blank 500

abbrev unless_domain : Error → Option ProblemDetails → ProblemDetails
unless_domain e (some details) = details
unless_domain e none = other_problem e

-- `toProblemDetails`
unfoldable pub to_problem_details : Error → ProblemDetails
to_problem_details (problem_error status) = without_code blank status
to_problem_details e = unless_domain e (domain_problem e)

-- `createErrorHandler`: the answer, and the log of the failures that are the service's own.
unfoldable pub error_handler : Error → List Error → ProblemDetails × List Error
error_handler e log =
    let details = to_problem_details e in
    (details, if leb 500 details.status then log ++ e ∷ [] else log)

-- The error was made for a status of 4xx or 5xx, as all of the program's are.
abbrev pub IsClientOrServer : Error → Type 0
IsClientOrServer (problem_error n) = (400 ≤ n) × (n < 600)
IsClientOrServer (http_exception n) = (400 ≤ n) × (n < 600)
IsClientOrServer _ = Unit

-- Every thrown value is answered with a status from 400 up to 599, if those that carry a status
-- carry such a one.
pub to_problem_details_bounds :
    (e : Error)
    → IsClientOrServer e
    → (400 ≤ (to_problem_details e).status) × ((to_problem_details e).status < 600)
unfolding to_problem_details
to_problem_details_bounds e h = ground arith

-- What the service, and not the caller, is at fault for.
abbrev is_service_fault : Error → Bool
is_service_fault (status_list_error issuer_instance_unavailable) = true
is_service_fault (status_list_error _) = false
is_service_fault (storage_error _) = false
is_service_fault (signing_service_error _) = true
is_service_fault (signing_error _) = true
is_service_fault (problem_error n) = leb 500 n
is_service_fault zod_error = false
is_service_fault (http_exception n) = leb 500 n
is_service_fault tenant_env_error = true
is_service_fault config_error = true
is_service_fault provisioning_error = true
is_service_fault plain_error = true

-- The error handler answers with the problem document and logs exactly the failures that are the
-- service's own, those that are mapped to a status of 5xx included, unlike the comment above it
-- says: a tenant or key that is gone, a signer's failure, a status of 5xx, and every value that no
-- class tells about.
pub error_handler-is_service_fault :
    (e : Error) (log : List Error)
    → error_handler e log
      ≡ (to_problem_details e, if is_service_fault e then log ++ e ∷ [] else log)
unfolding error_handler to_problem_details
error_handler-is_service_fault e log = ground arith
