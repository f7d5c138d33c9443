-- ===== src/Tests/Routes.antt =====
-- The handlers on the sample storage.
use mathlib.Core.Path.{subst}
use vcalm_status_service.Common.{
  String, ◌≡◌, ◌≢◌, refl, sym, ◌⊎◌, Bool, true, false, Option, none, some, [], ◌∷◌, ◌==◌, ◌||◌,
  arith, string_eq, if◌then◌else◌, get_or, add,
}
use vcalm_status_service.Common.Text.{decimal}
use vcalm_status_service.Common.Ascii.{trim}
use vcalm_status_service.Json.{str, null, obj, Fields, field, end, member, push, nat}
use vcalm_status_service.Errors.{Error, ok, err, problem_error}
use vcalm_status_service.Storage.{revocation, suspension, StatusListRecord}
use vcalm_status_service.Storage.Memory.{MemoryStorage, memory_storage, get_status_list}
use vcalm_status_service.Storage.Memory.Refines.{memory_contract}
use vcalm_status_service.Tenants.{resolve_issuer_instance}
use vcalm_status_service.StatusLists.Bitstring.{read_status}
use vcalm_status_service.StatusLists.Manager.{instance_for, characteristics_of}
use vcalm_status_service.StatusLists.Manager.Effects.{Outside}
use vcalm_status_service.StatusLists.Manager.Lists.{set_status}
use vcalm_status_service.StatusLists.Manager.Updates.{IsReadable}
use vcalm_status_service.StatusLists.Manager.SetStatus.{Writes, set_status-Writes}
use vcalm_status_service.Domains.{
  Url, HostHeaders, hostname, effective_host, authorized_hosts, is_authorized_host,
  is_authorized_list_url,
}
use vcalm_status_service.Routes.Retrieve.{
  RetrieveRequest, content, etag_for, cache_control_for, content_type_for, departed,
  get_status_list_handler,
}
use vcalm_status_service.Routes.Retrieve.Caching.{get_status_list_handler_after_write}
use vcalm_status_service.Routes.Update.{
  Selector, UpdateCredentialStatusBody, set_by_explicit_selector, update_credential_status_handler,
  parse_index, list_from_url, set_at,
}
use vcalm_status_service.Routes.Update.Index.{parse_index-decimal}
use vcalm_status_service.Routes.Update.Isolation.{SetsOwn, set_at-SetsOwn}
use vcalm_status_service.Routes.Create.{
  CreateBody, CreateResponse, issuer_instance_for, slug_from_list_url, create_status_list_handler,
}
use vcalm_status_service.Routes.Create.Address.{create_status_list_handler-list_from_url}
use vcalm_status_service.Routes.Allocate.{with_status_entry}
use vcalm_status_service.Routes.Allocate.Entries.{entries_of, with_status_entry_lem}
use vcalm_status_service.Tests.Bits.{bits, bits-BitstringLaws}
use vcalm_status_service.Tests.Sample.{
  instance_1, acme, deps, signing, instance_1-Signs, outside, four, store, store-IsValid,
}

abbrev at : String → Url
at path = record { protocol = "https:"; hostname = "status.example"; pathname = path }

-- The addresses of the service, of the sample list and of a list to be.
abbrev parse_url : String → Option Url
parse_url s =
    if s == "https://status.example" || s == "http://status.example"
    then some (at "/")
    else if s == "https://status.example/status-lists/list"
    then some (at "/status-lists/list")
    else if s == "https://status.example/status-lists/mine"
    then some (at "/status-lists/mine")
    else none

-- Nothing is escaped.
abbrev decode : String → Option String
decode s = some s

abbrev selector : Selector
selector = record {
  type = "BitstringStatusListEntry";
  status_purpose = revocation;
  status_list_index = some "2";
  status_list_credential = some "https://status.example/status-lists/list";
}

set_at-SetsOwn_example :
    SetsOwn decode parse_url "https://status.example" memory_storage bits signing deps "acme"
      selector true "2" "https://status.example/status-lists/list" store outside
    ⊎ ((e : Error) × (set_at decode parse_url "https://status.example" memory_storage bits signing
            deps "acme" selector true "2" "https://status.example/status-lists/list"
            (store, outside)
          ≡ (err e, (store, outside))))
set_at-SetsOwn_example =
    set_at-SetsOwn decode parse_url "https://status.example" memory_storage bits signing deps "acme"
      selector true "2" "https://status.example/status-lists/list" store outside

-- Another tenant gets 404 for the list.
foreign_test :
    set_at decode parse_url "https://status.example" memory_storage bits signing deps "globex"
      selector true "2" "https://status.example/status-lists/list"
      (store, outside)
    ≡ (err (problem_error 404), (store, outside))
unfolding set_at list_from_url get_status_list
foreign_test = refl

abbrev update : UpdateCredentialStatusBody
update = record { credential_id = "urn:c1"; credential_status = selector; status = true }

foreign_update_test :
    update_credential_status_handler decode parse_url "https://status.example" memory_storage bits
      signing deps
      (λ json. ok update)
      "globex"
      null
      (store, outside)
    ≡ (err (problem_error 404), (store, outside))
unfolding update_credential_status_handler set_by_explicit_selector set_at list_from_url
    get_status_list
foreign_update_test = refl

parse_index-decimal_example : parse_index (decimal 131071) ≡ ok 131071
parse_index-decimal_example = parse_index-decimal 131071 (omega arith)

parse_index_tests :
    (parse_index "0042" ≡ ok 42)
    × (parse_index "" ≡ err (problem_error 400))
    × (parse_index "1e3" ≡ err (problem_error 400))
    × (parse_index "9007199254740992" ≡ err (problem_error 400))
unfolding parse_index
parse_index_tests = (refl, refl, refl, refl)

abbrev hosts : HostHeaders
hosts = record { forwarded_host = none; host = some "status.example"; url = "" }

abbrev request : RetrieveRequest
request = record { id = "list"; hosts = hosts; if_none_match = some (etag_for four); accept = none }

four-IsReadable : IsReadable bits four
four-IsReadable = record {
  bits = false ∷ false ∷ false ∷ false ∷ [];
  decodes = refl;
  long_enough = omega arith;
}

-- The list after a revocation.
written :
    Writes bits memory_storage signing deps memory_contract "list" 1 true four store
      (set_status bits memory_storage signing deps "list" (nat 1) true (store, outside))
unfolding get_status_list instance_for resolve_issuer_instance read_status
written =
    set_status-Writes bits memory_storage signing deps memory_contract "list" store outside four
      instance_1 refl refl bits-BitstringLaws instance_1-Signs store-IsValid four-IsReadable 1 true
      (omega arith) refl

abbrev served_for : String → Bool
served_for id =
    is_authorized_host parse_url (get_or (deps.tenants.get_tenant id) (departed id))
      (effective_host parse_url hosts) "https://status.example"

acme_is_served : served_for "acme" ≡ true
unfolding is_authorized_host effective_host authorized_hosts hostname trim add
acme_is_served = refl

written_is_served : served_for (written.stored.tenant_id) ≡ true
written_is_served =
    subst (λ id. served_for id ≡ true) (sym (written.flipped.tenant_id)) acme_is_served

get_status_list_handler_after_write_example :
    get_status_list_handler parse_url memory_storage
      (deps.tenants)
      "https://status.example"
      request
      (written.state)
    ≡ ok (
        content
          (etag_for (written.stored))
          (cache_control_for (written.stored))
          (content_type_for none)
          (written.stored.signed_credential))
get_status_list_handler_after_write_example =
    get_status_list_handler_after_write parse_url memory_storage (deps.tenants)
      "https://status.example" request bits signing deps memory_contract 1 true four store
      (set_status bits memory_storage signing deps "list" (nat 1) true (store, outside)) written
      written_is_served refl

abbrev elsewhere : RetrieveRequest
elsewhere = record request {
  hosts = record hosts { forwarded_host = some "other.example"; host = none };
}

abbrev body : CreateBody
body = record {
  status_purpose = suspension;
  id = some "https://status.example/status-lists/mine";
  options = none;
}

create_status_list_handler-list_from_url_example :
    (answer : CreateResponse) × (t : MemoryStorage) × (p : Outside signing) × (r : StatusListRecord)
    × (create_status_list_handler decode parse_url bits memory_storage signing deps
          (λ json. ok body)
          acme
          null
          (store, outside)
        ≡ (ok answer, (t, p)))
    × (answer.id ≡ "https://status.example/status-lists/mine")
    × (answer.location ≡ "https://status.example/status-lists/mine")
    × (list_from_url decode parse_url "https://status.example" memory_storage
          "https://status.example/status-lists/mine" t
        ≡ ok r)
    × (r.tenant_id ≡ "acme")
    × (r.status_purpose ≡ suspension)
unfolding issuer_instance_for resolve_issuer_instance characteristics_of is_authorized_list_url
    authorized_hosts hostname trim add slug_from_list_url get_status_list
create_status_list_handler-list_from_url_example =
    create_status_list_handler-list_from_url decode parse_url bits memory_storage signing deps
      (λ json. ok body) acme null body refl instance_1 refl
      "https://status.example/status-lists/mine" refl store outside memory_contract
      bits-BitstringLaws instance_1-Signs
      (record { length = 131072; status_size = 1; status_message = none; ttl = none }) refl "mine"
      refl refl store-IsValid refl

abbrev with_one : Fields
with_one = field "id" (str "urn:c1") (field "credentialStatus" (obj end) end)

with_status_entry_lem_example :
    (entries_of (member "credentialStatus" (with_status_entry with_one (obj end)))
      ≡ push (entries_of (member "credentialStatus" with_one)) (obj end))
    × ((k : String)
        → k ≢ "credentialStatus"
        → member k (with_status_entry with_one (obj end)) ≡ member k with_one)
with_status_entry_lem_example = with_status_entry_lem with_one (obj end) tt
