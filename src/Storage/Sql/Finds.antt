-- ===== src/Storage/Sql/Finds.antt =====
-- `findStatusLists` of storage-sql.ts: what is selected of the table, and in which order.
use mathlib.Core.Path.{subst}
use vcalm_status_service.Common.{
  String, ◌≡◌, refl, sym, ap, ◌∙◌, true, none, some, List, [], ◌∷◌, string_eq, eq_iff, eq_refl,
  ◌==◌, find, All, Member, filter, map, arith, Bool-cases, inl, inr,
}
use vcalm_status_service.Storage.{StatusListRecord, ListQuery, matches}
use vcalm_status_service.Storage.Contract.{IsSorted}
use vcalm_status_service.Storage.Memory.{insert_by_date, sort_by_date}
use vcalm_status_service.Storage.Memory.Lists.{
  All-sort_by_date, Member-sort_by_date, IsSorted-sort_by_date,
}
use vcalm_status_service.Storage.Schema.{Columns, StatusListTable, status_list_record}
use vcalm_status_service.Storage.Sql.{
  Database, has_id, is_selected, insert_by_text, order_by_text, sql_get_status_list,
  sql_find_status_lists, read_with,
}
use vcalm_status_service.Storage.Sql.Rows.{Unique, read_with-some}

pub All-map :
    {A B : Type 0} (f : A → B) (P : B → Type 0) (xs : List A)
    → All (λ x. P (f x)) xs
    → All P (map f xs)
All-map f P [] h = tt
All-map f P (x ∷ xs) (p, h) = (p, All-map f P xs h)

pub Member-map :
    {A B : Type 0} (f : A → B) (a : A) (xs : List A) → Member a xs → Member (f a) (map f xs)
Member-map f a [] h = elim h [ ]
Member-map f a (x ∷ xs) (inl e) = inl (ap f e)
Member-map f a (x ∷ xs) (inr h) = inr (Member-map f a xs h)

module _ (columns : Columns) where
  -- A row that is found and matches is among those that match.
  pub Member-matching :
      (q : ListQuery) (rows : List (StatusListTable columns)) (id : String)
      (r : StatusListTable columns)
      → find (has_id columns id) rows ≡ some r
      → is_selected columns q r ≡ true
      → Member r (filter (is_selected columns q) rows)
  Member-matching q [] id r h k = cc
  Member-matching q (x ∷ xs) id r h k = elim (Bool-cases (x.id == id)) [
    | inl hit ↦ let here : x ≡ r = cc (rw hit at h) in rw (here, k) (inl refl)
    | inr miss ↦
        let rest = Member-matching q xs id r (rw miss at h) k in
        elim (Bool-cases (is_selected columns q x)) [
          | inl hit ↦ rw hit (inr rest)
          | inr other ↦ rw other rest
        ]
  ]

  -- What is selected matches, and is the row of its id.
  module _ (q : ListQuery) (whole : List (StatusListTable columns)) where
    abbrev pub Selected : StatusListTable columns → Type 0
    Selected r = (is_selected columns q r ≡ true) × (find (has_id columns (r.id)) whole ≡ some r)

    Selected-in_rest :
        (rows : List (StatusListTable columns))
        → ((j : String) (x : StatusListTable columns)
            → find (has_id columns j) rows ≡ some x
            → find (has_id columns j) whole ≡ some x)
        → Unique columns rows
        → All Selected (filter (is_selected columns q) rows)
    Selected-in_rest [] sub u = tt
    Selected-in_rest (r ∷ rows) sub (fresh, u) =
        let rest = Selected-in_rest rows (λ j x e. sub j x (later j x e)) u in
        elim (Bool-cases (is_selected columns q r)) [
          | inl hit ↦ rw hit ((hit, sub (r.id) r (rw (eq_refl (r.id)))), rest)
          | inr miss ↦ rw miss rest
        ]
      where
        later :
            (j : String) (x : StatusListTable columns)
            → find (has_id columns j) rows ≡ some x
            → find (has_id columns j) (r ∷ rows) ≡ some x
        later j x e = elim (Bool-cases (r.id == j)) [
          | inl same ↦
              cc (subst (λ k. find (has_id columns k) rows ≡ none) ((eq_iff (r.id) j).0 same) fresh)
          | inr other ↦ rw other e
        ]

    pub All-Selected : Unique columns whole → All Selected (filter (is_selected columns q) whole)
    All-Selected u = Selected-in_rest whole (λ j x e. e) u

  insert_by_text_lem :
      (row : StatusListTable columns) (rows : List (StatusListTable columns))
      → map (status_list_record columns) (insert_by_text columns row rows)
        ≡ insert_by_date (status_list_record columns row) (map (status_list_record columns) rows)
  insert_by_text_lem row [] = refl
  insert_by_text_lem row (x ∷ rows) =
      ground
        (arith, columns.is_ordered_lem row.created_at x.created_at, insert_by_text_lem row rows)

  -- The rows in the order of their texts are the records in the order of their dates.
  pub order_by_text_lem :
      (rows : List (StatusListTable columns))
      → map (status_list_record columns) (order_by_text columns rows)
        ≡ sort_by_date (map (status_list_record columns) rows)
  order_by_text_lem [] = refl
  order_by_text_lem (row ∷ rows) =
      insert_by_text_lem row (order_by_text columns rows)
      ∙ ap (insert_by_date (status_list_record columns row)) (order_by_text_lem rows)

  -- The row that a record was read of.
  pub row_of :
      (id : String) (d : Database columns) {r : StatusListRecord}
      → sql_get_status_list columns id d ≡ some r
      → (row : StatusListTable columns) × (find (has_id columns id) d.status_lists ≡ some row)
        × (status_list_record columns row ≡ r)
  unfolding sql_get_status_list
  row_of id d h = read_with-some (status_list_record columns) _ h

  -- What is selected of the table, as records in the order of their dates.
  find_lem :
      (q : ListQuery) (d : Database columns)
      → sql_find_status_lists columns q d
        ≡ sort_by_date
            (map (status_list_record columns) (filter (is_selected columns q) d.status_lists))
  unfolding sql_find_status_lists
  find_lem q d = order_by_text_lem (filter (is_selected columns q) d.status_lists)

  abbrev Found : ListQuery → Database columns → StatusListRecord → Type 0
  Found q d r = (matches q r ≡ true) × (sql_get_status_list columns (r.id) d ≡ some r)

  Selected-Found :
      (q : ListQuery) (d : Database columns) (rows : List (StatusListTable columns))
      → All (Selected q d.status_lists) rows
      → All (λ row. Found q d (status_list_record columns row)) rows
  unfolding sql_get_status_list
  Selected-Found q d [] h = tt
  Selected-Found q d (row ∷ rows) ((hit, found), h) =
      ((hit, ap (read_with (status_list_record columns)) found), Selected-Found q d rows h)

  pub sql_find_sound :
      (q : ListQuery) (d : Database columns)
      → Unique columns d.status_lists
      → All (Found q d) (sql_find_status_lists columns q d)
  sql_find_sound q d u =
      let rows = filter (is_selected columns q) d.status_lists in
      subst (All (Found q d)) (sym (find_lem q d)) (
        All-sort_by_date (Found q d) (map (status_list_record columns) rows) (
          All-map (status_list_record columns) (Found q d) rows
            (Selected-Found q d rows (All-Selected q d.status_lists u))))

  pub sql_find_complete :
      (q : ListQuery) (d : Database columns) (id : String) (r : StatusListRecord)
      → Unique columns d.status_lists
      → sql_get_status_list columns id d ≡ some r
      → matches q r ≡ true
      → Member r (sql_find_status_lists columns q d)
  sql_find_complete q d id r u h k =
      let (row, found, same) = row_of id d h in
      let hit : is_selected columns q row ≡ true = ap (matches q) same ∙ k in
      let rows = filter (is_selected columns q) d.status_lists in
      subst (Member r) (sym (find_lem q d)) (
        Member-sort_by_date r (map (status_list_record columns) rows) (
          subst (λ x. Member x (map (status_list_record columns) rows)) same
            (Member-map (status_list_record columns) row rows
              (Member-matching q d.status_lists id row found hit))))

  pub sql_find-IsSorted :
      (q : ListQuery) (d : Database columns) → IsSorted (sql_find_status_lists columns q d)
  sql_find-IsSorted q d = subst IsSorted (sym (find_lem q d)) (
      IsSorted-sort_by_date
        (map (status_list_record columns) (filter (is_selected columns q) d.status_lists)))
