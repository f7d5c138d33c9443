-- ===== src/Storage/Sql/Inserts.antt =====
-- `createStatusList` and `allocateIndex` of storage-sql.ts.
use mathlib.Core.Path.{subst}
use vcalm_status_service.Common.{
  ◌≡◌, refl, sym, ap, ◌∙◌, none, some, [], ◌∷◌, ◌++◌, nat_eq, string_eq, find, arith, Option-cases,
  inl, inr,
}
use vcalm_status_service.Errors.{
  ok, err, storage_error, StorageErrorCode, duplicate_list, index_taken,
  credential_already_allocated,
}
use vcalm_status_service.Storage.{
  Date, StatusListRecord, NewStatusListRecord, NewIndexAllocation, first_version,
}
use vcalm_status_service.Storage.Contract.{
  SameAllocations, Refused, Granted, Allocates, stamped, no_list, has_index, taken,
}
use vcalm_status_service.Storage.Schema.{
  Columns, StatusListTable, IndexAllocationTable, status_list_row, status_list_record,
  allocation_row, allocation_record, allocation_record-row,
}
use vcalm_status_service.Storage.Sql.{
  Database, sql_storage, has_id, is_for, is_at, is_of, sql_get_status_list, sql_create_status_list,
  sql_allocate_index, classify_allocation_failure, sql_get_allocation, sql_is_index_allocated,
  sql_count_allocations, read_with,
}
use vcalm_status_service.Storage.Sql.Rows.{
  find-append_hit, find-append_miss, is_some-find-append, length-filter-append, is_for-query,
  is_for_other, Unique, append-Unique, read_with-none, read_with-some,
}

module _ (columns : Columns) where
  module _ (now : Date) (r : NewStatusListRecord) (d : Database columns) where
    abbrev pub new_row : StatusListTable columns
    new_row = status_list_row columns (first_version now r)

    pub no_row :
        sql_get_status_list columns (r.id) d ≡ none
        → find (has_id columns (r.id)) d.status_lists ≡ none
    unfolding sql_get_status_list
    no_row h = read_with-none (status_list_record columns) _ h

    pub sql_create_new :
        sql_get_status_list columns (r.id) d ≡ none
        → sql_create_status_list columns now r d
          ≡ (ok (first_version now r), record d { status_lists = d.status_lists ++ new_row ∷ [] })
    unfolding sql_create_status_list
    sql_create_new h = rw (no_row h)

    pub sql_create_duplicate :
        (x : StatusListRecord)
        → sql_get_status_list columns (r.id) d ≡ some x
        → sql_create_status_list columns now r d ≡ (err (storage_error duplicate_list), d)
    unfolding sql_create_status_list sql_get_status_list
    sql_create_duplicate x h =
        let (row, found, _) = read_with-some (status_list_record columns) _ h in rw (found, found)

    pub sql_create-SameAllocations :
        SameAllocations (sql_storage columns) d (sql_create_status_list columns now r d).1
    unfolding sql_create_status_list sql_get_allocation sql_is_index_allocated sql_count_allocations
    sql_create-SameAllocations = record {
      allocation = λ q. ground arith;
      allocated = λ id i. ground arith;
      count = λ id. ground arith;
    }

    pub sql_create-Unique :
        Unique columns d.status_lists
        → Unique columns (sql_create_status_list columns now r d).1.status_lists
    sql_create-Unique u = elim (Option-cases (sql_get_status_list columns (r.id) d)) [
      | inl free ↦
          rw (sql_create_new free) (append-Unique columns d.status_lists new_row (no_row free) u)
      | inr (x, found) ↦ rw (sql_create_duplicate x found) u
    ]

  module _ (now : Date) (a : NewIndexAllocation) (d : Database columns) where
    abbrev new_allocation : IndexAllocationTable columns
    new_allocation = allocation_row columns (stamped now a)

    abbrev with_row : Database columns
    with_row = record d { index_allocations = d.index_allocations ++ new_allocation ∷ [] }

    with_row-Granted :
        (list : StatusListTable columns)
        → find (has_id columns (a.list_id)) d.status_lists ≡ some list
        → find (is_for columns (a.query)) d.index_allocations ≡ none
        → find (is_at columns (a.list_id) (a.status_list_index)) d.index_allocations ≡ none
        → Granted (sql_storage columns) now a d with_row
    unfolding sql_get_status_list sql_get_allocation sql_is_index_allocated sql_count_allocations
    with_row-Granted list known fresh free = record {
      known = rw known;
      fresh = ap (read_with (allocation_record columns)) fresh;
      free = rw free;
      lists = record { list = λ id. refl };
      allocation =
          ap (read_with (allocation_record columns)) (
            find-append_hit (is_for columns (a.query)) d.index_allocations new_allocation fresh
              (is_for-query columns now a))
          ∙ ap some (allocation_record-row columns (stamped now a));
      others = λ q hq ha ne. ap (read_with (allocation_record columns)) (
          find-append_miss (is_for columns q) d.index_allocations new_allocation
            (is_for_other columns now q a ne));
      allocated =
          λ id i. is_some-find-append (is_at columns id i) d.index_allocations new_allocation;
      count = λ id. length-filter-append (is_of columns id) d.index_allocations new_allocation;
    }

    classified :
        find (is_for columns (a.query)) d.index_allocations ≡ none
        → find (is_at columns (a.list_id) (a.status_list_index)) d.index_allocations ≡ none
        → find (has_id columns (a.list_id)) d.status_lists ≡ none
        → classify_allocation_failure columns a d ≡ storage_error StorageErrorCode.list_not_found
    unfolding classify_allocation_failure sql_get_status_list sql_get_allocation
        sql_is_index_allocated
    classified fresh free missing = rw (fresh, free, missing)

    classified_taken :
        (old : IndexAllocationTable columns)
        → find (is_for columns (a.query)) d.index_allocations ≡ none
        → find (is_at columns (a.list_id) (a.status_list_index)) d.index_allocations ≡ some old
        → classify_allocation_failure columns a d ≡ storage_error index_taken
    unfolding classify_allocation_failure sql_get_allocation sql_is_index_allocated
    classified_taken old fresh used = rw (fresh, used)

    classified_held :
        (old : IndexAllocationTable columns)
        → find (is_for columns (a.query)) d.index_allocations ≡ some old
        → classify_allocation_failure columns a d ≡ storage_error credential_already_allocated
    unfolding classify_allocation_failure sql_get_allocation
    classified_held old held = rw held

    pub sql_allocate_index-Allocates :
        Allocates (sql_storage columns) now a d (sql_allocate_index columns now a d)
    unfolding sql_allocate_index classify_allocation_failure sql_get_status_list sql_get_allocation
        sql_is_index_allocated
    sql_allocate_index-Allocates =
        elim (Option-cases (find (is_for columns (a.query)) d.index_allocations)) [
          | inr (old, e) ↦ rw e (
            refl,
            subst (Refused (sql_storage columns) d a) (sym (classified_held old e))
                (has_index (rw e)),
          )
          | inl fresh ↦
              elim (Option-cases
                (find (is_at columns (a.list_id) (a.status_list_index)) d.index_allocations)) [
                  | inr (old, e) ↦
                      rw (fresh, e)
                        (
                          refl,
                          subst (Refused (sql_storage columns) d a)
                              (sym (classified_taken old fresh e)) (taken (rw e)),
                        )
                  | inl free ↦
                      elim (Option-cases (find (has_id columns (a.list_id)) d.status_lists)) [
                        | inl missing ↦
                            rw (fresh, free, missing)
                              (
                                refl,
                                subst (Refused (sql_storage columns) d a)
                                    (sym (classified fresh free missing))
                                    (no_list (ap (read_with (status_list_record columns)) missing)),
                              )
                        | inr (list, known) ↦
                            rw (fresh, free, known) (refl, with_row-Granted list known fresh free)
                      ]
                ]
        ]
