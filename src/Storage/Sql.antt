-- ===== src/Storage/Sql.antt =====
-- service/src/services/storage-sql.ts: `SqlStorage`, once it is initialized. A table is its rows in
-- the order of insertion; an insert checks the keys that storage-sql-migrations.ts declares, and a
-- transaction that fails is rolled back.
pub mod Rows
pub mod Finds
pub mod Inserts
pub mod Refines
use Prim.Native.String
use vcalm_status_service.Common.{
  ℕ, String, Bool, true, false, Option, none, some, List, [], ◌∷◌, ◌++◌, map, ◌&&◌, ◌||◌, ◌==◌,
  nat_eq, string_eq, if◌then◌else◌, is_some, find, filter, length,
}
use vcalm_status_service.Errors.{
  Error, Result, ok, err, Action, storage_error, StorageErrorCode, duplicate_list, index_taken,
  credential_already_allocated, plain_error,
}
use vcalm_status_service.Storage.{
  Date, purpose_eq, matches_if_given, StatusListRecord, NewStatusListRecord, IndexAllocation,
  NewIndexAllocation, AllocationQuery, StatusListMaterialization, StatusListMutationResult,
  ListQuery, StorageService, first_version,
}
use vcalm_status_service.Storage.Schema.{
  Columns, StatusListTable, IndexAllocationTable, status_list_row, status_list_record,
  allocation_row, allocation_record, set_columns,
}

-- What is read of a row that may be there.
abbrev pub read_with : {A B : Type 0} → (A → B) → Option A → Option B
read_with f none = none
read_with f (some x) = some (f x)

module _ (columns : Columns) where
  pub record Database : Type 0 where
    pub status_lists : List (StatusListTable columns)
    pub index_allocations : List (IndexAllocationTable columns)

  -- `where id = id`
  abbrev pub has_id : String → StatusListTable columns → Bool
  has_id id row = row.id == id

  -- The conditions of `findStatusLists`.
  abbrev pub is_selected : ListQuery → StatusListTable columns → Bool
  is_selected q row =
      row.tenant_id == q.tenant_id
      && matches_if_given q.status_purpose row.status_purpose
      && matches_if_given q.issuer_instance_id row.issuer_instance_id

  -- The unique key of an allocation's credential.
  abbrev pub is_for : AllocationQuery → IndexAllocationTable columns → Bool
  is_for q row =
      row.tenant_id == q.tenant_id
      && row.credential_id == q.credential_id
      && row.status_purpose == q.status_purpose

  -- The primary key of an allocation.
  abbrev pub is_at : String → ℕ → IndexAllocationTable columns → Bool
  is_at id i row = row.list_id == id && row.status_list_index == i

  abbrev pub is_of : String → IndexAllocationTable columns → Bool
  is_of id row = row.list_id == id

  unfoldable pub sql_get_status_list : String → Database → Option StatusListRecord
  sql_get_status_list id d =
      read_with (status_list_record columns) (find (has_id id) d.status_lists)

  abbrev insert_list : StatusListTable columns → Database → Option Database
  insert_list row d =
      if is_some (find (has_id (row.id)) d.status_lists)
      then none
      else some (record d { status_lists = d.status_lists ++ row ∷ [] })

  abbrev after_insert :
      StatusListRecord → Database → Option Database → Result StatusListRecord × Database
  after_insert r d (some inserted) = (ok r, inserted)
  after_insert r d none = (
    if is_some (sql_get_status_list (r.id) d)
        then err (storage_error duplicate_list)
        else err plain_error,
    d,
  )

  unfoldable pub sql_create_status_list :
      Date → NewStatusListRecord → Action Database StatusListRecord
  sql_create_status_list now r d =
      let stored = first_version now r in
      after_insert stored d (insert_list (status_list_row columns stored) d)

  -- `order by created_at asc`
  abbrev pub insert_by_text :
      StatusListTable columns → List (StatusListTable columns) → List (StatusListTable columns)
  insert_by_text row [] = row ∷ []
  insert_by_text row (x ∷ rows) =
      if columns.is_ordered row.created_at x.created_at
      then row ∷ x ∷ rows
      else x ∷ insert_by_text row rows

  abbrev pub order_by_text : List (StatusListTable columns) → List (StatusListTable columns)
  order_by_text [] = []
  order_by_text (row ∷ rows) = insert_by_text row (order_by_text rows)

  unfoldable pub sql_find_status_lists : ListQuery → Database → List StatusListRecord
  sql_find_status_lists q d =
      map (status_list_record columns) (order_by_text (filter (is_selected q) d.status_lists))

  abbrev pub update_where :
      Date
      → StatusListMaterialization
      → StatusListTable columns
      → String
      → List (StatusListTable columns)
      → List (StatusListTable columns)
  update_where now m current id [] = []
  update_where now m current id (row ∷ rows) =
      let rest = update_where now m current id rows in
      if row.id == id then set_columns columns now m current row ∷ rest else row ∷ rest

  module _ {W T : Type 0} (clock : W → Date × W) (id : String)
      (current : StatusListTable columns) where
    abbrev pub sql_written :
        Database → W → T → Option StatusListMaterialization → Result T × (Database × W)
    sql_written d w x none = (ok x, (d, w))
    sql_written d w x (some m) =
        let (now, v) = clock w in
        (ok x, (record d { status_lists = update_where now m current id d.status_lists }, v))

    -- The end of the transaction.
    abbrev pub commit :
        Database → Result (StatusListMutationResult T) × W → Result T × (Database × W)
    commit d (err e, w) = (err e, (d, w))
    commit d (ok outcome, w) = sql_written d w outcome.result outcome.materialization

  module _ (W T : Type 0) (clock : W → Date × W) (id : String)
      (mutate : StatusListRecord → Action W (StatusListMutationResult T)) where
    abbrev pub sql_apply : Option (StatusListTable columns) → Action (Database × W) T
    sql_apply none (d, w) = (err (storage_error StorageErrorCode.list_not_found), (d, w))
    sql_apply (some row) (d, w) = commit clock id row d (mutate (status_list_record columns row) w)

    unfoldable pub sql_update_status_list : Action (Database × W) T
    sql_update_status_list (d, w) = sql_apply (find (has_id id) d.status_lists) (d, w)

  unfoldable pub sql_get_allocation : AllocationQuery → Database → Option IndexAllocation
  sql_get_allocation q d =
      read_with (allocation_record columns) (find (is_for q) d.index_allocations)

  unfoldable pub sql_is_index_allocated : String → ℕ → Database → Bool
  sql_is_index_allocated id i d = is_some (find (is_at id i) d.index_allocations)

  unfoldable pub sql_count_allocations : String → Database → ℕ
  sql_count_allocations id d = length (filter (is_of id) d.index_allocations)

  -- The keys of the allocation table: unique twice, and a reference to the list.
  abbrev insert_allocation : IndexAllocation → Database → Option Database
  insert_allocation a d =
      if is_some (find (is_for a.query) d.index_allocations)
        || is_some (find (is_at (a.list_id) (a.status_list_index)) d.index_allocations)
      then none
      else if is_some (find (has_id (a.list_id)) d.status_lists)
      then some
          (record d { index_allocations = d.index_allocations ++ allocation_row columns a ∷ [] })
      else none

  -- `#classifyAllocationFailure`
  unfoldable pub classify_allocation_failure : NewIndexAllocation → Database → Error
  classify_allocation_failure a d =
      if is_some (sql_get_allocation (a.query) d)
      then storage_error credential_already_allocated
      else if sql_is_index_allocated (a.list_id) (a.status_list_index) d
      then storage_error index_taken
      else if is_some (sql_get_status_list (a.list_id) d)
      then plain_error
      else storage_error StorageErrorCode.list_not_found

  abbrev inserted_or_error :
      IndexAllocation → Database → Option Database → Result IndexAllocation × Database
  inserted_or_error a d none = (err (classify_allocation_failure (a.base) d), d)
  inserted_or_error a d (some inserted) = (ok a, inserted)

  unfoldable pub sql_allocate_index : Date → NewIndexAllocation → Action Database IndexAllocation
  sql_allocate_index now a d =
      let stored : IndexAllocation = record { base = a; allocated_at = now } in
      inserted_or_error stored d (insert_allocation stored d)

  abbrev pub opened : Database
  opened = record { status_lists = []; index_allocations = [] }

  abbrev pub sql_storage : StorageService
  sql_storage = record {
    State = Database;
    opened = opened;
    close = λ d. d;
    create_status_list = sql_create_status_list;
    get_status_list = sql_get_status_list;
    find_status_lists = sql_find_status_lists;
    update_status_list = sql_update_status_list;
    allocate_index = sql_allocate_index;
    get_allocation = sql_get_allocation;
    is_index_allocated = sql_is_index_allocated;
    count_allocations = sql_count_allocations;
  }
