-- ===== src/Storage/Memory.antt =====
-- service/src/services/storage-memory.ts: `MemoryStorage`. The three maps are dictionaries in the
-- order of insertion; cloning on the way in and out is what values are here. The per-list queue
-- `#locks` makes an update one step, as `update_status_list` is.
pub mod Updates
pub mod Allocations
pub mod Lists
pub mod Refines
use Prim.Native.String
use vcalm_status_service.Common.{
  ℕ, ◌+◌, String, Bool, true, false, Option, none, some, List, [], ◌∷◌, ◌++◌, arith, ◌==◌, nat_eq,
  leb, if◌then◌else◌, is_some, get_or, filter, contains, add, length, map,
}
use vcalm_status_service.Common.Dict
use vcalm_status_service.Common.Dict.{Dict}
use vcalm_status_service.Errors.{
  Result, ok, err, Action, storage_error, StorageErrorCode, duplicate_list, index_taken,
  credential_already_allocated,
}
use vcalm_status_service.Storage.{
  Date, StatusPurpose, revocation, suspension, StatusListRecord, NewStatusListRecord,
  IndexAllocation, NewIndexAllocation, AllocationQuery, StatusListMaterialization,
  StatusListMutationResult, ListQuery, StorageService, first_version, materialized, matches,
}

pub record MemoryStorage : Type 0 where
  pub lists : Dict StatusListRecord
  pub allocations : Dict IndexAllocation
  pub used_indexes : Dict (List ℕ)

abbrev pub empty : MemoryStorage
empty = record { lists = []; allocations = []; used_indexes = [] }

abbrev pub purpose_text : StatusPurpose → String
purpose_text revocation = "revocation"
purpose_text suspension = "suspension"

-- The three parts joined by NUL.
abbrev pub allocation_key : AllocationQuery → String
allocation_key q = String.◌++◌ q.tenant_id (
    String.◌++◌ "\0"
      (String.◌++◌ q.credential_id (String.◌++◌ "\0" (purpose_text q.status_purpose))))

abbrev pub close : MemoryStorage → MemoryStorage
close s = empty

unfoldable pub create_status_list :
    Date → NewStatusListRecord → Action MemoryStorage StatusListRecord
create_status_list now r s =
    if is_some (Dict.get (r.id) s.lists) then (err (storage_error duplicate_list), s) else (
      ok (first_version now r),
      record s { lists = Dict.put (r.id) (first_version now r) s.lists },
    )

unfoldable pub get_status_list : String → MemoryStorage → Option StatusListRecord
get_status_list id s = Dict.get id s.lists

-- One step of a stable sort by the date of creation.
abbrev pub insert_by_date : StatusListRecord → List StatusListRecord → List StatusListRecord
insert_by_date r [] = r ∷ []
insert_by_date r (x ∷ xs) =
    if leb r.created_at x.created_at then r ∷ x ∷ xs else x ∷ insert_by_date r xs

abbrev pub sort_by_date : List StatusListRecord → List StatusListRecord
sort_by_date [] = []
sort_by_date (r ∷ rs) = insert_by_date r (sort_by_date rs)

unfoldable pub find_status_lists : ListQuery → MemoryStorage → List StatusListRecord
find_status_lists q s = sort_by_date (filter (matches q) (Dict.values s.lists))

module _ {W T : Type 0} (clock : W → Date × W) (id : String) (current : StatusListRecord) where
  -- What `#applyUpdate` does with the outcome of `mutate`.
  unfoldable pub write_outcome :
      MemoryStorage → Result (StatusListMutationResult T) × W → Result T × (MemoryStorage × W)
  write_outcome s (err e, w) = (err e, (s, w))
  write_outcome s (ok outcome, w) = elim (outcome.materialization) [
    | none ↦ (ok outcome.result, (s, w))
    | some m ↦
        let (now, w') = clock w in
        (
          ok outcome.result,
          (record s { lists = Dict.put id (materialized now m current) s.lists }, w'),
        )
  ]

unfoldable pub update_status_list :
    (W T : Type 0)
    → (W → Date × W)
    → String
    → (StatusListRecord → Action W (StatusListMutationResult T))
    → Action (MemoryStorage × W) T
update_status_list W T clock id mutate (s, w) = elim (Dict.get id s.lists) [
  | none ↦ (err (storage_error StorageErrorCode.list_not_found), (s, w))
  | some current ↦ write_outcome clock id current s (mutate current w)
]

-- `this.#usedIndexes.get(listId) ?? new Set()`
abbrev pub used : String → MemoryStorage → List ℕ
used id s = get_or (Dict.get id s.used_indexes) []

unfoldable pub granted : Date → NewIndexAllocation → MemoryStorage → MemoryStorage
granted now a s = record s {
  allocations =
      Dict.put (allocation_key a.query) (record { base = a; allocated_at = now }) s.allocations;
  used_indexes =
      Dict.put (a.list_id) (add (a.status_list_index) (used (a.list_id) s)) s.used_indexes;
}

unfoldable pub allocate_index : Date → NewIndexAllocation → Action MemoryStorage IndexAllocation
allocate_index now a s =
    if is_some (Dict.get (a.list_id) s.lists)
    then if is_some (Dict.get (allocation_key a.query) s.allocations)
      then (err (storage_error credential_already_allocated), s)
      else if contains (a.status_list_index) (used (a.list_id) s)
      then (err (storage_error index_taken), s)
      else (ok (record { base = a; allocated_at = now }), granted now a s)
    else (err (storage_error StorageErrorCode.list_not_found), s)

unfoldable pub get_allocation : AllocationQuery → MemoryStorage → Option IndexAllocation
get_allocation q s = Dict.get (allocation_key q) s.allocations

unfoldable pub is_index_allocated : String → ℕ → MemoryStorage → Bool
is_index_allocated id i s = contains i (used id s)

unfoldable pub count_allocations : String → MemoryStorage → ℕ
count_allocations id s = length (used id s)

abbrev pub memory_storage : StorageService
memory_storage = record {
  State = MemoryStorage;
  opened = empty;
  close = close;
  create_status_list = create_status_list;
  get_status_list = get_status_list;
  find_status_lists = find_status_lists;
  update_status_list = update_status_list;
  allocate_index = allocate_index;
  get_allocation = get_allocation;
  is_index_allocated = is_index_allocated;
  count_allocations = count_allocations;
}
