-- ===== src/Routes/Create.antt =====
-- `POST /status-lists` of service/src/routes/status-lists.ts. The schema, which the package zod runs,
-- and `decodeURIComponent` are parameters.
pub mod Address
pub mod Atomic
use Prim.Native.String
use vcalm_status_service.Common.{
  ℕ, String, Bool, true, false, not, Option, none, some, List, is_some, if◌then◌else◌,
}
use vcalm_status_service.Json.{Json}
use vcalm_status_service.Errors.{
  Result, ok, err, Action, pure, lift, ◌>>=◌, problem_error, plain_error,
}
use vcalm_status_service.VcSigner.{VerifiableCredential}
use vcalm_status_service.Storage.{StatusPurpose, StatusMessage, StorageService, StatusListRecord}
use vcalm_status_service.Signing.{SigningService}
use vcalm_status_service.Tenants.{IssuerInstance, TenantRecord, resolve_issuer_instance}
use vcalm_status_service.StatusLists.Bitstring.{BitstringLibrary}
use vcalm_status_service.StatusLists.Manager.{Deps, CreateStatusListInput, RequestedCharacteristics}
use vcalm_status_service.StatusLists.Manager.Effects.{World}
use vcalm_status_service.StatusLists.Manager.Lists.{create_list}
use vcalm_status_service.Domains.{Url, is_authorized_list_url}
use vcalm_status_service.Routes.{canonical_url_of}
use vcalm_status_service.Routes.Update.{list_segment}

pub record CreateOptions : Type 0 where
  pub length : Option ℕ
  pub status_size : Option ℕ
  pub status_message : Option (List StatusMessage)
  pub ttl : Option ℕ
  pub issuer_instance : Option String

-- The body, behind `createStatusListSchema`.
pub record CreateBody : Type 0 where
  pub status_purpose : StatusPurpose
  pub id : Option String
  pub options : Option CreateOptions

pub record CreateResponse : Type 0 where
  pub location : String
  pub verifiable_credential : VerifiableCredential
  pub id : String

abbrev no_instance : Option String → ℕ
no_instance none = 500
no_instance (some wanted) = 400

abbrev instance_or_problem : Option String → Option IssuerInstance → Result IssuerInstance
instance_or_problem wanted (some inst) = ok inst
instance_or_problem wanted none = err (problem_error (no_instance wanted))

-- `issuerInstanceFor`
unfoldable pub issuer_instance_for : TenantRecord → Option String → Result IssuerInstance
issuer_instance_for tenant wanted =
    instance_or_problem wanted (resolve_issuer_instance tenant wanted)

abbrev pub wanted_instance : Option CreateOptions → Option String
wanted_instance none = none
wanted_instance (some options) = options.issuer_instance

abbrev requested : Option CreateOptions → Option RequestedCharacteristics
requested none = none
requested (some options) = some (record {
  length = options.length;
  status_size = options.status_size;
  status_message = options.status_message;
  ttl = options.ttl;
})

module _ (decode_uri_component : String → Option String) (parse_url : String → Option Url) where
  -- An escape that does not decode is a `URIError`.
  abbrev decoded : Option String → Result (Option String)
  decoded none = err plain_error
  decoded (some id) = ok (some id)

  abbrev slug_in : Option String → Result (Option String)
  slug_in none = ok none
  slug_in (some segment) = decoded (decode_uri_component segment)

  -- A text that is no URL is a `TypeError`.
  abbrev slug_of : Option Url → Result (Option String)
  slug_of none = err plain_error
  slug_of (some u) = slug_in (list_segment u.pathname)

  -- `slugFromListUrl`
  unfoldable pub slug_from_list_url : String → Result (Option String)
  slug_from_list_url url = slug_of (parse_url url)

  abbrev named : String → Result (Option String) → Result (Option String × Option String)
  named url (err e) = err e
  named url (ok none) = err (problem_error 400)
  named url (ok (some id)) = ok (some id, some url)

  -- The id and the URL that the caller chose, if it did.
  unfoldable pub chosen_address :
      TenantRecord → String → Option String → Result (Option String × Option String)
  chosen_address tenant public_base_url none = ok (none, none)
  chosen_address tenant public_base_url (some url) =
      if is_authorized_list_url parse_url tenant url public_base_url
      then named url (slug_from_list_url url)
      else err (problem_error 400)

  module _ (lib : BitstringLibrary) (storage : StorageService) (signing : SigningService)
      (deps : Deps) where
    abbrev pub created : StatusListRecord → CreateResponse
    created r = record {
      location = canonical_url_of r deps.public_base_url;
      verifiable_credential = r.signed_credential;
      id = canonical_url_of r deps.public_base_url;
    }

    -- `createStatusListHandler`
    unfoldable pub create_status_list_handler :
        (Json → Result CreateBody)
        → TenantRecord
        → Json
        → Action (World signing storage) CreateResponse
    create_status_list_handler schema tenant json = do
      body ← lift (schema json)
      inst ← lift (issuer_instance_for tenant (wanted_instance body.options))
      address ← lift (chosen_address tenant deps.public_base_url body.id)
      r ← create_list lib storage signing deps (record {
        tenant_id = tenant.tenant_id;
        instance_of = inst;
        status_purpose = body.status_purpose;
        id = address.0;
        url = address.1;
        characteristics = requested body.options;
      })
      pure (created r)
