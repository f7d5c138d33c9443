-- ===== src/StatusLists/Manager/Lists.antt =====
-- `createList`, `setStatus` and `setCredentialStatus` of service/src/status-lists/manager.ts.
use vcalm_status_service.Common.{String, Bool, Option, none, some, nat_eq, string_eq, get_or}
use vcalm_status_service.Json.{Number, nat}
use vcalm_status_service.Errors.{
  Action, pure, lift, gets, or_throw, ◌>>=◌, status_list_error, StatusListErrorCode,
  issuer_instance_unavailable, credential_not_allocated,
}
use vcalm_status_service.Storage.{purpose_eq, StatusListRecord, AllocationQuery, StorageService}
use vcalm_status_service.Signing.{SigningService}
use vcalm_status_service.StatusLists.Bitstring.{BitstringLibrary}
use vcalm_status_service.StatusLists.Credential.{status_list_url}
use vcalm_status_service.StatusLists.Manager.Effects.{
  get_list, Outside, World, outside, in_storage, draw,
}
use vcalm_status_service.StatusLists.Manager.{
  reading, Deps, CreateStatusListInput, StatusChange, characteristics_of, materialize, apply_status,
  instance_for,
}

module _ (lib : BitstringLibrary) (storage : StorageService) (signing : SigningService)
    (deps : Deps) where
  -- `input.id ?? this.#generateId()`
  abbrev pub chosen_id : Option String → Action (World signing storage) String
  chosen_id none = outside signing storage (draw signing deps.generate_id)
  chosen_id (some id) = pure id

  -- `createList`
  unfoldable pub create_list :
      CreateStatusListInput → Action (World signing storage) StatusListRecord
  create_list input = do
    characteristics ← lift (characteristics_of input.characteristics)
    id ← chosen_id input.id
    let url = get_or input.url (status_list_url deps.public_base_url id)
    m ← outside signing storage (
        materialize lib signing deps url input.instance_of input.status_purpose
          (lib.create_list characteristics.length) characteristics.ttl)
    now ← outside signing storage (draw signing deps.system_clock)
    in_storage signing storage (
        storage.create_status_list now (record {
          id = id;
          tenant_id = input.tenant_id;
          issuer_instance_id = input.instance_of.id;
          status_purpose = input.status_purpose;
          characteristics = characteristics;
          encoded_list = m.encoded_list;
          signed_credential = m.signed_credential;
        }))

  -- `setStatus`
  unfoldable pub set_status : String → Number → Bool → Action (World signing storage) StatusChange
  set_status list_id index status = do
    found ← gets (get_list signing storage list_id)
    list ← or_throw found (status_list_error StatusListErrorCode.list_not_found)
    inst ← or_throw (instance_for deps list) (status_list_error issuer_instance_unavailable)
    storage.update_status_list (Outside signing) StatusChange (reading signing deps) list_id
        (λ current. apply_status lib signing deps current inst index status)

  -- `setCredentialStatus`
  unfoldable pub set_credential_status :
      AllocationQuery → Bool → Action (World signing storage) StatusChange
  set_credential_status q status = do
    found ← gets (λ (s, o). storage.get_allocation q s)
    allocation ← or_throw found (status_list_error credential_not_allocated)
    set_status allocation.list_id (nat allocation.status_list_index) status
