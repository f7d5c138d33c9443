-- ===== src/Tests/Storage.antt =====
-- The in-memory storage on the sample state.
use vcalm_status_service.Common.{◌≡◌, refl, none, some, [], ◌∷◌, add, arith}
use vcalm_status_service.Errors.{
  err, storage_error, StorageErrorCode, index_taken, credential_already_allocated,
}
use vcalm_status_service.Storage.{
  revocation, suspension, ListQuery, StatusListRecord, NewIndexAllocation,
}
use vcalm_status_service.Storage.Contract.{NoNul, Contract}
use vcalm_status_service.Storage.Memory.{
  MemoryStorage, get_status_list, find_status_lists, allocate_index, count_allocations, granted,
  close,
}
use vcalm_status_service.Storage.Sql.{
  Database, sql_allocate_index, sql_count_allocations, classify_allocation_failure,
  sql_get_allocation, sql_is_index_allocated, sql_get_status_list, sql_find_status_lists,
  sql_storage,
}
use vcalm_status_service.Storage.Schema.{status_list_row}
use vcalm_status_service.Storage.Sql.Refines.{sql_storage-Contract}
use vcalm_status_service.Tests.Columns.{columns}
use vcalm_status_service.Tests.Sample.{four, store, query}

abbrev of_acme : ListQuery
of_acme = record { tenant_id = "acme"; status_purpose = some revocation; issuer_instance_id = none }

-- An older list, stored later, for the other purpose.
abbrev older : StatusListRecord
older = record four {
  base = record (four.base) { id = "old"; status_purpose = suspension };
  created_at = 2;
}

abbrev both : MemoryStorage
both = record store { lists = ("list", four) ∷ ("old", older) ∷ [] }

abbrev first : NewIndexAllocation
first = record { query = query; list_id = "list"; status_list_index = 3 }

-- The life of an index: granted once, then taken for others and held by its credential.
allocation_tests :
    (allocate_index 7 first (allocate_index 6 first store).1
      ≡ (err (storage_error credential_already_allocated), (allocate_index 6 first store).1))
    × (allocate_index 7
          (record first { query = record query { credential_id = "urn:c2" } })
          (allocate_index 6 first store).1
        ≡ (err (storage_error index_taken), (allocate_index 6 first store).1))
    × (count_allocations "list" (allocate_index 6 first store).1 ≡ 1)
    × (get_status_list "list" (close store) ≡ none)
unfolding allocate_index granted add count_allocations get_status_list
allocation_tests = (refl, refl, refl, refl)

find_tests :
    (find_status_lists (record of_acme { status_purpose = none }) both ≡ older ∷ four ∷ [])
    × (find_status_lists of_acme both ≡ four ∷ [])
unfolding find_status_lists
find_tests = (refl, refl)

acme-NoNul : NoNul "acme"
acme-NoNul = (omega arith, (omega arith, (omega arith, (omega arith, tt))))

-- The same life of an index in the tables.
abbrev tables : Database columns
tables = record { status_lists = status_list_row columns four ∷ []; index_allocations = [] }

sql_tests :
    (sql_allocate_index columns 7 first (sql_allocate_index columns 6 first tables).1 ≡ (
      err (storage_error credential_already_allocated),
      (sql_allocate_index columns 6 first tables).1,
    ))
    × (sql_allocate_index columns 7
          (record first { query = record query { credential_id = "urn:c2" } })
          (sql_allocate_index columns 6 first tables).1
        ≡ (err (storage_error index_taken), (sql_allocate_index columns 6 first tables).1))
    × (sql_count_allocations columns "list" (sql_allocate_index columns 6 first tables).1 ≡ 1)
    × (sql_allocate_index columns 6 (record first { list_id = "none" }) tables
        ≡ (err (storage_error StorageErrorCode.list_not_found), tables))
    × (sql_find_status_lists columns of_acme tables ≡ four ∷ [])
unfolding sql_allocate_index sql_count_allocations classify_allocation_failure sql_get_allocation
    sql_is_index_allocated sql_get_status_list sql_find_status_lists
sql_tests = (refl, refl, refl, refl, refl)

sql_storage-Contract_example : Contract (sql_storage columns)
sql_storage-Contract_example = sql_storage-Contract columns
