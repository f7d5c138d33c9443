-- ===== src/Routes/Update.antt =====
-- `POST /credentials/status` of service/src/routes/credentials-status.ts. The schema, which the
-- package zod runs, and `decodeURIComponent` are parameters.
pub mod Index
pub mod Isolation
pub mod Atomic
use Prim.Native.Char.{code}
use Prim.Native.String
use vcalm_status_service.Common.{
  ℕ, ◌+◌, ◌-◌, ◌*◌, String, Bool, true, false, not, ◌&&◌, ◌||◌, Option, none, some, List, [], ◌∷◌,
  ◌==◌, string_eq, if◌then◌else◌, contains, filter, leb, is_some,
}
use vcalm_status_service.Common.Text.{decimal}
use vcalm_status_service.Common.Decimal.{all_digits, value_from}
use vcalm_status_service.Common.Ascii.{split}
use vcalm_status_service.Json.{Json, Number, nat}
use vcalm_status_service.Errors.{
  Result, ok, err, Action, pure, throw, lift, gets, throw_if, ◌>>=◌, ◌>>◌, problem_error,
  plain_error,
}
use vcalm_status_service.Storage.{
  StatusPurpose, purpose_eq, StatusListRecord, AllocationQuery, StorageService,
}
use vcalm_status_service.Signing.{SigningService}
use vcalm_status_service.StatusLists.Bitstring.{BitstringLibrary}
use vcalm_status_service.StatusLists.Credential.{BitstringStatusListEntry}
use vcalm_status_service.StatusLists.Manager.{Deps, StatusChange}
use vcalm_status_service.StatusLists.Manager.Effects.{World}
use vcalm_status_service.StatusLists.Manager.Lists.{set_status, set_credential_status}
use vcalm_status_service.Domains.{Url}
use vcalm_status_service.Routes.{canonical_url_of}

-- `credentialStatus` of the body.
pub record Selector : Type 0 where
  pub type : String
  pub status_purpose : StatusPurpose
  pub status_list_index : Option String
  pub status_list_credential : Option String

-- `UpdateCredentialStatusBody`, without what is ignored.
pub record UpdateCredentialStatusBody : Type 0 where
  pub credential_id : String
  pub credential_status : Selector
  pub status : Bool

pub record UpdateResponse : Type 0 where
  pub credential_id : String
  pub status_purpose : StatusPurpose
  pub status_list_index : String
  pub status_list_credential : String
  pub status : Bool

-- `ENTRY_TYPES`
abbrev pub entry_types : List String
entry_types = "BitstringStatusList" ∷ "BitstringStatusListEntry" ∷ []

-- `Number.MAX_SAFE_INTEGER`
abbrev pub max_safe_integer : ℕ
max_safe_integer = 9007199254740991

-- `parseIndex`
unfoldable pub parse_index : String → Result ℕ
parse_index raw =
    if raw == "" || not (all_digits raw)
    then err (problem_error 400)
    else if leb (value_from 0 raw) max_safe_integer
    then ok (value_from 0 raw)
    else err (problem_error 400)

-- The id in a path of `/status-lists/{id}`, still escaped.
abbrev of_segments : List String → Option String
of_segments (a ∷ b ∷ []) = if a == "status-lists" then some b else none
of_segments _ = none

abbrev pub list_segment : String → Option String
list_segment pathname = of_segments (filter (λ s. not (s == "")) (split b'/' pathname))

module _ (decode_uri_component : String → Option String) (parse_url : String → Option Url)
    (public_base_url : String) (storage : StorageService) where
  abbrev pub answers_to : String → Option StatusListRecord → Result StatusListRecord
  answers_to url none = err (problem_error 404)
  answers_to url (some r) =
      if canonical_url_of r public_base_url == url then ok r else err (problem_error 404)

  -- An escape that does not decode is a `URIError`.
  abbrev pub list_at : String → Option String → storage.State → Result StatusListRecord
  list_at url none s = err plain_error
  list_at url (some id) s = answers_to url (storage.get_status_list id s)

  abbrev pub list_in : String → Option String → storage.State → Result StatusListRecord
  list_in url none s = err (problem_error 400)
  list_in url (some segment) s = list_at url (decode_uri_component segment) s

  abbrev pub list_of : String → Option Url → storage.State → Result StatusListRecord
  list_of url none s = err (problem_error 400)
  list_of url (some parsed) s = list_in url (list_segment parsed.pathname) s

  -- `listFromUrl`
  unfoldable pub list_from_url : String → storage.State → Result StatusListRecord
  list_from_url url s = list_of url (parse_url url) s

  module _ (lib : BitstringLibrary) (signing : SigningService) (deps : Deps) where
    -- `setByExplicitSelector`, once it has the list's URL and the index.
    unfoldable pub set_at :
        String → Selector → Bool → String → String → Action (World signing storage) StatusChange
    set_at tenant_id selector status raw url = do
      found ← gets (λ (s, o). list_from_url url s)
      list ← lift found
      throw_if (not (list.tenant_id == tenant_id)) (problem_error 404)
      throw_if (not (list.status_purpose == selector.status_purpose)) (problem_error 400)
      index ← lift (parse_index raw)
      set_status lib storage signing deps (list.id) (nat index) status

    abbrev pub set_if_both :
        String
        → Selector
        → Bool
        → Option String
        → Option String
        → Action (World signing storage) StatusChange
    set_if_both tenant_id selector status (some raw) (some url) =
        set_at tenant_id selector status raw url
    set_if_both tenant_id selector status _ _ = throw (problem_error 400)

    -- `setByExplicitSelector`
    unfoldable pub set_by_explicit_selector :
        String → UpdateCredentialStatusBody → Action (World signing storage) StatusChange
    set_by_explicit_selector tenant_id body =
        let selector = body.credential_status in
        set_if_both tenant_id selector (body.status) selector.status_list_index
          selector.status_list_credential

    abbrev pub change_status :
        String → UpdateCredentialStatusBody → Action (World signing storage) StatusChange
    change_status tenant_id body =
        if is_some body.credential_status.status_list_index
          || is_some body.credential_status.status_list_credential
        then set_by_explicit_selector tenant_id body
        else set_credential_status lib storage signing deps
            (record {
              tenant_id = tenant_id;
              credential_id = body.credential_id;
              status_purpose = body.credential_status.status_purpose;
            })
            body.status

    abbrev pub updated : UpdateCredentialStatusBody → StatusChange → UpdateResponse
    updated body change = record {
      credential_id = body.credential_id;
      status_purpose = change.list.status_purpose;
      status_list_index = decimal change.status_list_index;
      status_list_credential = canonical_url_of change.list public_base_url;
      status = body.status;
    }

    -- `updateCredentialStatusHandler`
    unfoldable pub update_credential_status_handler :
        (Json → Result UpdateCredentialStatusBody)
        → String
        → Json
        → Action (World signing storage) UpdateResponse
    update_credential_status_handler schema tenant_id json = do
      body ← lift (schema json)
      throw_if (not (contains body.credential_status.type entry_types)) (problem_error 400)
      change ← change_status tenant_id body
      pure (updated body change)
