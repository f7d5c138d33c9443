-- ===== src/Tests/Manager.antt =====
-- The status list manager on the sample storage.
use vcalm_status_service.Common.{
  ℕ, zero, suc, add, ◌<◌, String, ◌≡◌, ◌≢◌, refl, true, false, Option, none, some, [], ◌∷◌, arith,
}
use vcalm_status_service.Json.{nat, inexact}
use vcalm_status_service.Errors.{ok, status_list_error, index_out_of_range}
use vcalm_status_service.Storage.{
  revocation, suspension, StatusMessage, StatusListCharacteristics, StatusListRecord,
  IndexAllocation, AllocationQuery,
}
use vcalm_status_service.Storage.Memory.{
  MemoryStorage, memory_storage, get_status_list, get_allocation, granted, is_index_allocated,
  find_status_lists, count_allocations,
}
use vcalm_status_service.Storage.Memory.Refines.{memory_contract}
use vcalm_status_service.Tenants.{resolve_issuer_instance}
use vcalm_status_service.StatusLists.Bitstring.{read_status}
use vcalm_status_service.Common.Text.{decimal, encode_uri_component}
use vcalm_status_service.StatusLists.Credential.{status_list_url}
use vcalm_status_service.StatusLists.Manager.{instance_for, default_instance_for, index_in_range}
use vcalm_status_service.StatusLists.Manager.Lists.{set_status, set_credential_status}
use vcalm_status_service.StatusLists.Manager.Updates.{IsReadable}
use vcalm_status_service.StatusLists.Manager.SetStatus.{
  Writes, set_status-Writes, set_status_redundant,
}
use vcalm_status_service.StatusLists.Manager.Failures.{set_status_atomic, set_status_out_of_range}
use vcalm_status_service.StatusLists.Manager.{
  characteristics_of, CreateStatusListInput, RequestedCharacteristics,
}
use vcalm_status_service.StatusLists.Manager.Effects.{Outside}
use vcalm_status_service.StatusLists.Manager.Lists.{create_list}
use vcalm_status_service.StatusLists.Manager.Allocation.{
  allocate_index, list_for_purpose, attempts, attempt,
}
use vcalm_status_service.StatusLists.Manager.Creates.{Creates, create_list-Creates}
use vcalm_status_service.StatusLists.Manager.Allocates.{Ends, allocate_index-Ends}
use vcalm_status_service.StatusLists.Manager.RoundTrip.{allocate_index-set_credential_status}
use vcalm_status_service.StatusLists.Manager.Selects.{Suits, Chooses, list_for_purpose_lem}
use vcalm_status_service.Tests.Bits.{bits, bits-BitstringLaws}
use vcalm_status_service.Tests.Sample.{
  instance_1, deps, random_index_in_range, signing, instance_1-Signs, outside, four, store,
  store-IsValid, query,
}

four-IsReadable : IsReadable bits four
four-IsReadable = record {
  bits = false ∷ false ∷ false ∷ false ∷ [];
  decodes = refl;
  long_enough = omega arith;
}

set_status-Writes_example :
    Writes bits memory_storage signing deps memory_contract "list" 1 true four store
      (set_status bits memory_storage signing deps "list" (nat 1) true (store, outside))
unfolding get_status_list instance_for resolve_issuer_instance read_status
set_status-Writes_example =
    set_status-Writes bits memory_storage signing deps memory_contract "list" store outside four
      instance_1 refl refl bits-BitstringLaws instance_1-Signs store-IsValid four-IsReadable 1 true
      (omega arith) refl

set_status_redundant_example :
    set_status bits memory_storage signing deps "list" (nat 3) false (store, outside)
    ≡ (ok (record { changed = false; list = four; status_list_index = 3 }), (store, outside))
unfolding get_status_list instance_for resolve_issuer_instance read_status
set_status_redundant_example =
    set_status_redundant bits memory_storage signing deps memory_contract "list" store outside four
      instance_1 refl refl four-IsReadable 3 false (omega arith) refl

set_status_atomic_example : store ≡ store
unfolding get_status_list instance_for resolve_issuer_instance index_in_range set_status
set_status_atomic_example =
    set_status_atomic bits memory_storage memory_contract signing deps "list" (inexact "1.5") true
      store outside (status_list_error index_out_of_range) store outside
      (set_status_out_of_range bits memory_storage memory_contract signing deps "list"
        (inexact "1.5") true store outside four instance_1 refl refl refl)

abbrev fresh : StatusListCharacteristics
fresh = record { length = 131072; status_size = 1; status_message = none; ttl = none }

abbrev request : Option String → Option RequestedCharacteristics → CreateStatusListInput
request id c = record {
  tenant_id = "acme";
  instance_of = instance_1;
  status_purpose = suspension;
  id = id;
  url = none;
  characteristics = c;
}

abbrev of_length : ℕ → RequestedCharacteristics
of_length n = record {
  length = some n;
  status_size = some 1;
  status_message = none;
  ttl = some 60000;
}

create_list-Creates_example :
    Creates bits memory_storage signing deps memory_contract
      (request none none)
      fresh
      "list-0"
      "https://status.example/status-lists/list-0"
      store
      (create_list bits memory_storage signing deps (request none none) (store, outside))
unfolding characteristics_of get_status_list status_list_url encode_uri_component decimal
create_list-Creates_example =
    create_list-Creates bits memory_storage signing deps memory_contract bits-BitstringLaws
      (request none none) instance_1-Signs fresh refl store outside store-IsValid refl

-- Allocation on the sample list, and the storage after it.
abbrev allocated : IndexAllocation
allocated = record {
  base = record { query = query; list_id = "list"; status_list_index = 3 };
  allocated_at = 1786190096789;
}

abbrev after_allocation : MemoryStorage
after_allocation = granted 1786190096789 (allocated.base) store

abbrev later : Outside signing
later = record outside { draws = 2 }

allocated_test :
    allocate_index bits memory_storage signing deps query "list" (store, outside)
    ≡ (ok allocated, (after_allocation, later))
unfolding allocate_index attempts attempt get_status_list is_index_allocated
    vcalm_status_service.Storage.Memory.allocate_index granted add
allocated_test = refl

allocate_index-Ends_example :
    Ends memory_storage signing deps query four store 64 0
      (allocate_index bits memory_storage signing deps query "list" (store, outside))
unfolding get_status_list
allocate_index-Ends_example =
    allocate_index-Ends bits memory_storage signing deps query "list" store outside memory_contract
      store-IsValid four refl refl random_index_in_range (omega arith)

four_is_clear : (i : ℕ) → i < 4 → read_status bits "0000" i ≡ some false
unfolding read_status
four_is_clear zero h = refl
four_is_clear (suc zero) h = refl
four_is_clear (suc (suc zero)) h = refl
four_is_clear (suc (suc (suc zero))) h = refl
four_is_clear (suc (suc (suc (suc i)))) h = absurd (omega arith)

allocate_index-set_credential_status_example :
    Writes bits memory_storage signing deps memory_contract "list" 3 true four after_allocation
      (set_credential_status bits memory_storage signing deps query true (after_allocation, later))
unfolding get_status_list granted instance_for resolve_issuer_instance
allocate_index-set_credential_status_example =
    allocate_index-set_credential_status bits memory_storage signing deps memory_contract
      bits-BitstringLaws four instance_1 instance_1-Signs refl query store after_allocation outside
      later later allocated store-IsValid (refl, refl, tt) refl refl random_index_in_range
      (omega arith) four-IsReadable four_is_clear allocated_test

abbrev suspending : AllocationQuery
suspending = record query { status_purpose = suspension }

list_for_purpose_lem_example :
    ((list : StatusListRecord)
      → Suits bits memory_storage signing deps suspending store outside list
      → Chooses bits memory_storage signing deps suspending store outside memory_contract
          store-IsValid
          (list_for_purpose bits memory_storage signing deps suspending (store, outside)))
    × (((list : StatusListRecord)
          → ¬ Suits bits memory_storage signing deps suspending store outside list)
        → Creates bits memory_storage signing deps memory_contract
            (request none none)
            fresh
            "list-0"
            "https://status.example/status-lists/list-0"
            store
            (list_for_purpose bits memory_storage signing deps suspending (store, outside)))
unfolding find_status_lists count_allocations default_instance_for resolve_issuer_instance
    get_status_list decimal status_list_url encode_uri_component
list_for_purpose_lem_example =
    list_for_purpose_lem bits memory_storage signing deps suspending store outside memory_contract
      store-IsValid bits-BitstringLaws instance_1 instance_1-Signs refl refl

other_purpose : revocation ≢ suspension
other_purpose e = cc
