-- ===== src/Routes/Allocate.antt =====
-- `POST /credentials/status/allocate` of service/src/routes/allocate.ts. The two schemas, which the
-- package zod runs, are parameters.
pub mod Entries
use Prim.Native.String
use vcalm_status_service.Common.{
  String, Bool, true, false, Option, none, some, if◌then◌else◌, get_or, is_some, ◌==◌, string_eq,
}
use vcalm_status_service.Json.{
  Json, null, bool, num, str, arr, obj, Fields, field, end, Items, nil, cons, member, with_member,
  push,
}
use vcalm_status_service.Errors.{Result, ok, err, Action, pure, throw, lift, ◌>>=◌, problem_error}
use vcalm_status_service.Storage.{
  StatusPurpose, revocation, StorageService, AllocationQuery, StatusListRecord,
}
use vcalm_status_service.Storage.Memory.{purpose_text}
use vcalm_status_service.Signing.{SigningService}
use vcalm_status_service.StatusLists.Bitstring.{BitstringLibrary}
use vcalm_status_service.StatusLists.Credential.{
  BitstringStatusListEntry, bitstring_status_list_entry,
}
use vcalm_status_service.StatusLists.Manager.{Deps, Allocated}
use vcalm_status_service.StatusLists.Manager.Effects.{World}
use vcalm_status_service.StatusLists.Manager.Allocation.{allocate_for_credential}
use vcalm_status_service.Routes.{canonical_url_of}

pub record AllocateRequest : Type 0 where
  pub credential : Fields
  pub status_purpose : StatusPurpose
  pub status_list_id : Option String

-- `options` of the wrapped form.
pub record AllocateOptions : Type 0 where
  pub status_purpose : Option StatusPurpose
  pub status_list_id : Option String

pub record Wrapped : Type 0 where
  pub credential : Fields
  pub options : Option AllocateOptions

abbrev unwrapped : Wrapped → AllocateRequest
unwrapped w = record {
  credential = w.credential;
  status_purpose = purpose w.options;
  status_list_id = list_id w.options;
}
  where
    purpose : Option AllocateOptions → StatusPurpose
    purpose none = revocation
    purpose (some o) = get_or o.status_purpose revocation

    list_id : Option AllocateOptions → Option String
    list_id none = none
    list_id (some o) = o.status_list_id

abbrev bare : Fields → AllocateRequest
bare credential = record {
  credential = credential;
  status_purpose = revocation;
  status_list_id = none;
}

-- The entry as JSON.
abbrev pub entry_json : BitstringStatusListEntry → Json
entry_json e = obj (
    field "id" (str e.id) (
      field "type" (str e.type) (
        field "statusPurpose" (str (purpose_text e.status_purpose)) (
          field "statusListIndex" (str e.status_list_index)
            (field "statusListCredential" (str e.status_list_credential) end)))))

abbrev pub joined : Option Json → Json → Json
joined none entry = entry
joined (some (arr existing)) entry = arr (push existing entry)
joined (some existing) entry = arr (cons existing (cons entry nil))

-- `withStatusEntry`
unfoldable pub with_status_entry : Fields → Json → Fields
with_status_entry credential entry =
    with_member "credentialStatus" (joined (member "credentialStatus" credential) entry) credential

-- The credential's `id`, if it is a text that is not empty.
abbrev credential_id : Option Json → Result String
credential_id (some (str id)) = if id == "" then err (problem_error 400) else ok id
credential_id _ = err (problem_error 400)

module _ (credential_schema : Json → Result Fields) (wrapped_schema : Json → Result Wrapped) where
  abbrev map_ok : {A B : Type 0} → (A → B) → Result A → Result B
  map_ok f (ok a) = ok (f a)
  map_ok f (err e) = err e

  abbrev by_form : Bool → Json → Result AllocateRequest
  by_form true body = map_ok unwrapped (wrapped_schema body)
  by_form false body = map_ok bare (credential_schema body)

  -- `parseAllocateBody`
  unfoldable pub parse_allocate_body : Json → Result AllocateRequest
  parse_allocate_body (obj end) = err (problem_error 400)
  parse_allocate_body (obj (field k v fs)) =
      by_form (is_some (member "credential" (field k v fs))) (obj (field k v fs))
  parse_allocate_body _ = err (problem_error 400)

  module _ (lib : BitstringLibrary) (storage : StorageService) (signing : SigningService)
      (deps : Deps) where
    abbrev pub entry_for : Allocated → BitstringStatusListEntry
    entry_for a =
        bitstring_status_list_entry (canonical_url_of a.list deps.public_base_url)
          a.allocation.status_list_index a.allocation.status_purpose

    -- `allocateHandler`
    unfoldable pub allocate_handler : String → Json → Action (World signing storage) Fields
    allocate_handler tenant_id json = do
      request ← lift (parse_allocate_body json)
      id ← lift (credential_id (member "id" request.credential))
      a ←
          allocate_for_credential lib storage signing deps
            (record {
              tenant_id = tenant_id;
              credential_id = id;
              status_purpose = request.status_purpose;
            })
            request.status_list_id
      pure (with_status_entry request.credential (entry_json (entry_for a)))
