-- ===== src/Storage/Memory/Refines.antt =====
-- storage-memory.ts fills the contract of `StorageService`.
use vcalm_status_service.Common.{ℕ, String, ◌≡◌, refl, false, none}
use vcalm_status_service.Storage.{AllocationQuery, materialized}
use vcalm_status_service.Storage.Contract.{Contract}
use vcalm_status_service.Storage.Memory.{
  memory_storage, empty, get_status_list, get_allocation, is_index_allocated, count_allocations,
}
use vcalm_status_service.Storage.Memory.Lists.{
  IsValid, get_status_list-id, create-IsValid, allocate-IsValid, find_sound, find_complete,
  find-IsSorted, written-IsValid,
}
use vcalm_status_service.Storage.Memory.Allocations.{allocate_index-Allocates}
use vcalm_status_service.Storage.Memory.Updates.{
  create_new, get-create, create_duplicate, create-SameAllocations, update_missing, update_failed,
  update_untouched, update_written_lem, get-written, written-SameAllocations,
}

pub opened-IsValid : IsValid empty
opened-IsValid = tt

pub get-opened : (id : String) → get_status_list id empty ≡ none
unfolding get_status_list
get-opened id = refl

pub allocation-opened : (q : AllocationQuery) → get_allocation q empty ≡ none
unfolding get_allocation
allocation-opened q = refl

pub allocated-opened : (id : String) (i : ℕ) → is_index_allocated id i empty ≡ false
unfolding is_index_allocated
allocated-opened id i = refl

pub count-opened : (id : String) → count_allocations id empty ≡ 0
unfolding count_allocations
count-opened id = refl

abbrev pub memory_contract : Contract memory_storage
memory_contract = record {
  IsValid = IsValid;
  opened-IsValid = opened-IsValid;
  get-opened = get-opened;
  allocation-opened = allocation-opened;
  allocated-opened = allocated-opened;
  count-opened = count-opened;
  get_id = get_status_list-id;
  create_new = create_new;
  get-create = get-create;
  create_duplicate = create_duplicate;
  create-SameAllocations = create-SameAllocations;
  create-IsValid = create-IsValid;
  find_sound = find_sound;
  find_complete = λ q s id r v. find_complete q s id r;
  find-IsSorted = find-IsSorted;
  allocate_index_lem = allocate_index-Allocates;
  allocate-IsValid = allocate-IsValid;
  update_missing = update_missing;
  update_failed = update_failed;
  update_untouched = update_untouched;
  update_written = λ W T clock id mutate s w r m x w' h e. (
    _,
    update_written_lem W T clock id mutate s w r m x w' h e,
    get-written s id (materialized (clock w').0 m r),
    written-SameAllocations s id (materialized (clock w').0 m r),
    λ v. written-IsValid s id (materialized (clock w').0 m r) v (get_status_list-id s id r v h),
  );
}

-- The in-memory storage keeps the contract of `StorageService`: a new one is valid and empty; each
-- operation answers, on each of its branches, as the contract specifies by what the reads show
-- afterwards, and keeps a valid state valid; a search of a valid state finds the stored lists that
-- match, all of them and no others, in the order of creation.
pub memory_storage-Contract : Contract memory_storage
memory_storage-Contract = memory_contract
