-- ===== src/Storage/Sql/Refines.antt =====
-- storage-sql.ts fills the contract of `StorageService`, as storage-memory.ts does, over columns
-- whose texts are read back.
use mathlib.Core.Path.{subst}
use vcalm_status_service.Common.{
  String, ◌≡◌, refl, sym, ap, ◌∙◌, none, some, string_eq, eq_iff, ◌==◌, if◌then◌else◌, find,
  find-holds, ℕ, false, arith,
}
use vcalm_status_service.Errors.{Error, ok, err, Action, storage_error, StorageErrorCode}
use vcalm_status_service.Storage.{
  Date, StatusListRecord, NewStatusListRecord, NewIndexAllocation, AllocationQuery,
  StatusListMaterialization, StatusListMutationResult, first_version, materialized,
}
use vcalm_status_service.Storage.Contract.{Contract, SameAllocations}
use vcalm_status_service.Storage.Schema.{
  Columns, StatusListTable, status_list_record, status_list_record-row,
  status_list_record-set_columns,
}
use vcalm_status_service.Storage.Sql.{
  Database, sql_storage, opened, has_id, update_where, sql_get_status_list, sql_create_status_list,
  sql_update_status_list, sql_allocate_index, sql_get_allocation, sql_is_index_allocated,
  sql_count_allocations, read_with,
}
use vcalm_status_service.Storage.Sql.Rows.{
  find-append_id, find-update_where, Unique, update-Unique, read_with-none,
}
use vcalm_status_service.Storage.Sql.Finds.{
  row_of, sql_find_sound, sql_find_complete, sql_find-IsSorted,
}
use vcalm_status_service.Storage.Sql.Inserts.{
  new_row, no_row, sql_create_new, sql_create_duplicate, sql_create-SameAllocations,
  sql_create-Unique, sql_allocate_index-Allocates,
}

module _ (columns : Columns) where
  abbrev pub IsValid : Database columns → Type 0
  IsValid d = Unique columns d.status_lists

  pub sql_get_id :
      (d : Database columns) (id : String) (r : StatusListRecord)
      → IsValid d
      → sql_get_status_list columns id d ≡ some r
      → r.id ≡ id
  sql_get_id d id r u h =
      let (row, found, same) = row_of columns id d h in
      ap (λ (x : StatusListRecord). x.id) (sym same)
      ∙ (eq_iff (row.id) id).0 (find-holds (has_id columns id) d.status_lists found)

  pub sql_get-create :
      (now : Date) (r : NewStatusListRecord) (d : Database columns) (id : String)
      → sql_get_status_list columns (r.id) d ≡ none
      → sql_get_status_list columns id (sql_create_status_list columns now r d).1
        ≡ (if r.id == id then some (first_version now r) else sql_get_status_list columns id d)
  unfolding sql_get_status_list
  sql_get-create now r d id h = rw (sql_create_new columns now r d h) (
      ap (read_with (status_list_record columns)) (
        find-append_id columns d.status_lists (new_row columns now r d) id
          (no_row columns now r d h))
      ∙ ground (arith, status_list_record-row columns (first_version now r)))

  pub sql_get-opened : (id : String) → sql_get_status_list columns id (opened columns) ≡ none
  unfolding sql_get_status_list
  sql_get-opened id = refl

  pub sql_allocation-opened :
      (q : AllocationQuery) → sql_get_allocation columns q (opened columns) ≡ none
  unfolding sql_get_allocation
  sql_allocation-opened q = refl

  pub sql_allocated-opened :
      (id : String) (i : ℕ) → sql_is_index_allocated columns id i (opened columns) ≡ false
  unfolding sql_is_index_allocated
  sql_allocated-opened id i = refl

  pub sql_count-opened : (id : String) → sql_count_allocations columns id (opened columns) ≡ 0
  unfolding sql_count_allocations
  sql_count-opened id = refl

  pub sql_allocate-IsValid :
      (now : Date) (a : NewIndexAllocation) (d : Database columns)
      → IsValid d
      → IsValid (sql_allocate_index columns now a d).1
  unfolding sql_allocate_index
  sql_allocate-IsValid now a d u = ground arith

  module _ (W T : Type 0) (clock : W → Date × W) (id : String)
      (mutate : StatusListRecord → Action W (StatusListMutationResult T)) (d : Database columns)
      (w : W) where
    pub sql_update_missing :
        sql_get_status_list columns id d ≡ none
        → sql_update_status_list columns W T clock id mutate (d, w)
          ≡ (err (storage_error StorageErrorCode.list_not_found), (d, w))
    unfolding sql_update_status_list sql_get_status_list
    sql_update_missing h = rw (read_with-none (status_list_record columns) _ h)

    pub sql_update_failed :
        (r : StatusListRecord) (e : Error) (v : W)
        → sql_get_status_list columns id d ≡ some r
        → mutate r w ≡ (err e, v)
        → sql_update_status_list columns W T clock id mutate (d, w) ≡ (err e, (d, v))
    unfolding sql_update_status_list
    sql_update_failed r e v h m =
        let (row, found, same) = row_of columns id d h in rw (found, ap (λ x. mutate x w) same ∙ m)

    pub sql_update_untouched :
        (r : StatusListRecord) (x : T) (v : W)
        → sql_get_status_list columns id d ≡ some r
        → mutate r w ≡ (ok (record { materialization = none; result = x }), v)
        → sql_update_status_list columns W T clock id mutate (d, w) ≡ (ok x, (d, v))
    unfolding sql_update_status_list
    sql_update_untouched r x v h m =
        let (row, found, same) = row_of columns id d h in rw (found, ap (λ y. mutate y w) same ∙ m)

    module _ (row : StatusListTable columns)
        (found : find (has_id columns id) d.status_lists ≡ some row) (m : StatusListMaterialization)
        (v : W) where
      abbrev pub updated : Database columns
      updated = record d { status_lists = update_where columns (clock v).0 m row id d.status_lists }

      pub sql_update_written :
          (x : T)
          → mutate (status_list_record columns row) w
            ≡ (ok (record { materialization = some m; result = x }), v)
          → sql_update_status_list columns W T clock id mutate (d, w)
            ≡ (ok x, (updated, (clock v).1))
      unfolding sql_update_status_list
      sql_update_written x k = rw (found, k)

      pub get-updated :
          (j : String)
          → sql_get_status_list columns j updated ≡ (
              if id == j
              then some (materialized (clock v).0 m (status_list_record columns row))
              else sql_get_status_list columns j d)
      unfolding sql_get_status_list
      get-updated j =
          ap (read_with (status_list_record columns))
            (find-update_where columns (clock v).0 m d.status_lists row id j found)
          ∙ ground (arith, status_list_record-set_columns columns (clock v).0 m row)

      pub updated-SameAllocations : SameAllocations (sql_storage columns) d updated
      unfolding sql_get_allocation sql_is_index_allocated sql_count_allocations
      updated-SameAllocations = record {
        allocation = λ q. refl;
        allocated = λ i n. refl;
        count = λ i. refl;
      }

    pub sql_update_writes :
        (r : StatusListRecord) (m : StatusListMaterialization) (x : T) (v : W)
        → sql_get_status_list columns id d ≡ some r
        → mutate r w ≡ (ok (record { materialization = some m; result = x }), v)
        → (t : Database columns) × (sql_update_status_list columns W T clock id mutate (d, w)
            ≡ (ok x, (t, (clock v).1)))
          × ((j : String)
              → sql_get_status_list columns j t ≡ (
                  if id == j
                  then some (materialized (clock v).0 m r)
                  else sql_get_status_list columns j d))
          × SameAllocations (sql_storage columns) d t
          × (IsValid d → IsValid t)
    sql_update_writes r m x v h e =
        let (row, found, same) = row_of columns id d h in
        (
          updated row found m v,
          sql_update_written row found m v x (ap (λ y. mutate y w) same ∙ e),
          λ j.
              subst
                (λ y. sql_get_status_list columns j (updated row found m v) ≡ (
                  if id == j
                  then some (materialized (clock v).0 m y)
                  else sql_get_status_list columns j d))
                same (get-updated row found m v j),
          updated-SameAllocations row found m v,
          λ u. update-Unique columns (clock v).0 m d.status_lists row id u,
        )

  abbrev pub sql_contract : Contract (sql_storage columns)
  sql_contract = record {
    IsValid = IsValid;
    opened-IsValid = tt;
    get-opened = sql_get-opened;
    allocation-opened = sql_allocation-opened;
    allocated-opened = sql_allocated-opened;
    count-opened = sql_count-opened;
    get_id = sql_get_id;
    create_new = λ now r d h. ap (λ x. x.0) (sql_create_new columns now r d h);
    get-create = sql_get-create;
    create_duplicate = λ now r d x h. sql_create_duplicate columns now r d x h;
    create-SameAllocations = λ now r d. sql_create-SameAllocations columns now r d;
    create-IsValid = λ now r d u. sql_create-Unique columns now r d u;
    find_sound = sql_find_sound columns;
    find_complete = sql_find_complete columns;
    find-IsSorted = sql_find-IsSorted columns;
    allocate_index_lem = λ now a d. sql_allocate_index-Allocates columns now a d;
    allocate-IsValid = sql_allocate-IsValid;
    update_missing = sql_update_missing;
    update_failed = sql_update_failed;
    update_untouched = sql_update_untouched;
    update_written = sql_update_writes;
  }

  -- Where what is written into a text column is read back and dates sort as their texts do, the SQL
  -- storage keeps the same contract, over tables with their declared keys: empty tables are valid;
  -- each operation answers, on each of its branches, as the contract specifies by what the reads
  -- show afterwards, and keeps a valid state valid; a search of a valid state finds the stored
  -- lists that match, all of them and no others, in the order of creation.
  pub sql_storage-Contract : Contract (sql_storage columns)
  sql_storage-Contract = sql_contract
