-- ===== src/Storage/Memory/Updates.antt =====
-- `createStatusList` and `updateStatusList` of storage-memory.ts.
use vcalm_status_service.Common.{
  String, ◌≡◌, refl, none, some, arith, ◌==◌, string_eq, if◌then◌else◌,
}
use vcalm_status_service.Common.Dict
use vcalm_status_service.Common.Dict.{get-put}
use vcalm_status_service.Errors.{
  Error, ok, err, Action, storage_error, StorageErrorCode, duplicate_list,
}
use vcalm_status_service.Storage.{
  Date, StatusListRecord, NewStatusListRecord, StatusListMaterialization, StatusListMutationResult,
  first_version, materialized,
}
use vcalm_status_service.Storage.Contract.{SameAllocations}
use vcalm_status_service.Storage.Memory.{
  MemoryStorage, memory_storage, create_status_list, get_status_list, update_status_list,
  write_outcome, get_allocation, is_index_allocated, count_allocations,
}

pub create_new :
    (now : Date) (r : NewStatusListRecord) (s : MemoryStorage)
    → get_status_list (r.id) s ≡ none
    → (create_status_list now r s).0 ≡ ok (first_version now r)
unfolding create_status_list get_status_list
create_new now r s h = rw h

pub get-create :
    (now : Date) (r : NewStatusListRecord) (s : MemoryStorage) (id : String)
    → get_status_list (r.id) s ≡ none
    → get_status_list id (create_status_list now r s).1
      ≡ (if r.id == id then some (first_version now r) else get_status_list id s)
unfolding create_status_list get_status_list
get-create now r s id h = rw h (get-put (r.id) id (first_version now r) s.lists)

pub create_duplicate :
    (now : Date) (r : NewStatusListRecord) (s : MemoryStorage) (x : StatusListRecord)
    → get_status_list (r.id) s ≡ some x
    → create_status_list now r s ≡ (err (storage_error duplicate_list), s)
unfolding create_status_list get_status_list
create_duplicate now r s x h = rw h

pub create-SameAllocations :
    (now : Date) (r : NewStatusListRecord) (s : MemoryStorage)
    → SameAllocations memory_storage s (create_status_list now r s).1
unfolding create_status_list get_allocation is_index_allocated count_allocations
create-SameAllocations now r s = record {
  allocation = λ q. ground arith;
  allocated = λ id i. ground arith;
  count = λ id. ground arith;
}

module _ (W T : Type 0) (clock : W → Date × W) (id : String)
    (mutate : StatusListRecord → Action W (StatusListMutationResult T)) (s : MemoryStorage)
    (w : W) where
  pub update_missing :
      get_status_list id s ≡ none
      → update_status_list W T clock id mutate (s, w)
        ≡ (err (storage_error StorageErrorCode.list_not_found), (s, w))
  unfolding update_status_list get_status_list
  update_missing h = rw (h, update_status_list)

  pub update_found :
      (r : StatusListRecord)
      → get_status_list id s ≡ some r
      → update_status_list W T clock id mutate (s, w) ≡ write_outcome clock id r s (mutate r w)
  unfolding update_status_list get_status_list
  update_found r h = rw (h, update_status_list)

  pub update_failed :
      (r : StatusListRecord) (e : Error) (w' : W)
      → get_status_list id s ≡ some r
      → mutate r w ≡ (err e, w')
      → update_status_list W T clock id mutate (s, w) ≡ (err e, (s, w'))
  unfolding write_outcome
  update_failed r e w' h m = rw (update_found r h, m)

  pub update_untouched :
      (r : StatusListRecord) (x : T) (w' : W)
      → get_status_list id s ≡ some r
      → mutate r w ≡ (ok (record { materialization = none; result = x }), w')
      → update_status_list W T clock id mutate (s, w) ≡ (ok x, (s, w'))
  unfolding write_outcome
  update_untouched r x w' h m = rw (update_found r h, m)

  -- The state after an update that writes.
  abbrev written : Date → StatusListMaterialization → StatusListRecord → MemoryStorage
  written now m r = record s { lists = Dict.put id (materialized now m r) s.lists }

  pub update_written_lem :
      (r : StatusListRecord) (m : StatusListMaterialization) (x : T) (w' : W)
      → get_status_list id s ≡ some r
      → mutate r w ≡ (ok (record { materialization = some m; result = x }), w')
      → update_status_list W T clock id mutate (s, w)
        ≡ (ok x, (written (clock w').0 m r, (clock w').1))
  unfolding write_outcome
  update_written_lem r m x w' h e = rw (update_found r h, e)

-- A write of one list: every read of a list afterwards, and no read of an allocation changes.
module _ (s : MemoryStorage) (id : String) (r : StatusListRecord) where
  pub get-written :
      (j : String)
      → get_status_list j (record s { lists = Dict.put id r s.lists })
        ≡ (if id == j then some r else get_status_list j s)
  unfolding get_status_list
  get-written j = get-put id j r s.lists

  pub written-SameAllocations :
      SameAllocations memory_storage s (record s { lists = Dict.put id r s.lists })
  unfolding get_allocation is_index_allocated count_allocations
  written-SameAllocations = record {
    allocation = λ q. refl;
    allocated = λ id i. refl;
    count = λ id. refl;
  }
