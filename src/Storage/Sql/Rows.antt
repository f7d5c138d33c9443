-- ===== src/Storage/Sql/Rows.antt =====
-- Rows that are found, added and updated in storage-sql.ts.
use mathlib.Core.Path.{subst}
use vcalm_status_service.Common.{
  ◌+◌, String, ◌≡◌, ◌≢◌, refl, ap, ◌∙◌, Bool, true, false, Option, none, some, List, [], ◌∷◌, ◌++◌,
  ◌||◌, ◌==◌, nat_eq, string_eq, if◌then◌else◌, is_some, find, filter, length, arith, eq_iff,
  eq_refl, Bool-cases, inl, inr,
}
use vcalm_status_service.Storage.{
  Date, purpose_eq, NewIndexAllocation, AllocationQuery, StatusListMaterialization,
}
use vcalm_status_service.Storage.Contract.{stamped}
use vcalm_status_service.Storage.Schema.{Columns, StatusListTable, allocation_row, set_columns}
use vcalm_status_service.Storage.Sql.{has_id, is_for, update_where, read_with}

-- What was read, by the row that it was read of.
pub read_with-none :
    {A B : Type 0} (f : A → B) (found : Option A) → read_with f found ≡ none → found ≡ none
read_with-none f none h = refl
read_with-none f (some x) h = cc

pub read_with-some :
    {A B : Type 0} (f : A → B) (found : Option A) {y : B}
    → read_with f found ≡ some y
    → (x : A) × (found ≡ some x) × (f x ≡ y)
read_with-some f (some x) {y} h = let same : f x ≡ y = cc in (x, refl, same)
read_with-some f none h = cc

module _ {A : Type 0} (p : A → Bool) where
  find-append_none :
      (xs : List A) (a : A)
      → find p xs ≡ none
      → find p (xs ++ a ∷ []) ≡ (if p a then some a else none)
  find-append_none [] a h = refl
  find-append_none (x ∷ xs) a h = ground (arith, find-append_none xs a)

  pub find-append_miss : (xs : List A) (a : A) → p a ≡ false → find p (xs ++ a ∷ []) ≡ find p xs
  find-append_miss [] a h = rw h
  find-append_miss (x ∷ xs) a h = ground (arith, find-append_miss xs a h)

  pub is_some-find-append :
      (xs : List A) (a : A) → is_some (find p (xs ++ a ∷ [])) ≡ (p a || is_some (find p xs))
  is_some-find-append [] a = ground arith
  is_some-find-append (x ∷ xs) a = ground (arith, is_some-find-append xs a)

  pub length-filter-append :
      (xs : List A) (a : A)
      → length (filter p (xs ++ a ∷ []))
        ≡ (if p a then length (filter p xs) + 1 else length (filter p xs))
  length-filter-append [] a = ground arith
  length-filter-append (x ∷ xs) a = ground (arith, length-filter-append xs a)

-- The row that is added is found by what it is found by, if no other was.
pub find-append_hit :
    {A : Type 0} (p : A → Bool) (xs : List A) (a : A)
    → find p xs ≡ none
    → p a ≡ true
    → find p (xs ++ a ∷ []) ≡ some a
find-append_hit p xs a h k = find-append_none p xs a h ∙ rw k

module _ (columns : Columns) where
  pub is_for-query :
      (now : Date) (a : NewIndexAllocation)
      → is_for columns (a.query) (allocation_row columns (stamped now a)) ≡ true
  is_for-query now a = rw (
    eq_refl (a.tenant_id),
    eq_refl (a.credential_id),
    (purpose_eq.agrees (a.status_purpose) (a.status_purpose)).1 refl,
  )

  pub is_for_other :
      (now : Date) (q : AllocationQuery) (a : NewIndexAllocation)
      → q ≢ a.query
      → is_for columns q (allocation_row columns (stamped now a)) ≡ false
  is_for_other now q a h = ground (
    arith,
    eq_iff (a.tenant_id) (q.tenant_id),
    eq_iff (a.credential_id) (q.credential_id),
    purpose_eq.agrees (a.status_purpose) (q.status_purpose),
  )

  -- A list that is added under a new id.
  pub find-append_id :
      (xs : List (StatusListTable columns)) (r : StatusListTable columns) (id : String)
      → find (has_id columns (r.id)) xs ≡ none
      → find (has_id columns id) (xs ++ r ∷ [])
        ≡ (if r.id == id then some r else find (has_id columns id) xs)
  find-append_id [] r id h = refl
  find-append_id (x ∷ xs) r id h =
      ground
        (arith, find-append_id xs r id, eq_iff (x.id) (r.id), eq_iff (x.id) id, eq_iff (r.id) id)

  update_miss :
      (now : Date) (m : StatusListMaterialization) (rows : List (StatusListTable columns))
      (r : StatusListTable columns) (id j : String)
      → (id == j) ≡ false
      → find (has_id columns j) (update_where columns now m r id rows)
        ≡ find (has_id columns j) rows
  update_miss now m [] r id j h = refl
  update_miss now m (x ∷ xs) r id j h =
      ground (arith, update_miss now m xs r id j h, eq_iff (x.id) id, eq_iff (x.id) j, eq_iff id j)

  update_hit :
      (now : Date) (m : StatusListMaterialization) (rows : List (StatusListTable columns))
      (r : StatusListTable columns) (id : String)
      → find (has_id columns id) rows ≡ some r
      → find (has_id columns id) (update_where columns now m r id rows)
        ≡ some (set_columns columns now m r r)
  update_hit now m [] r id h = cc
  update_hit now m (x ∷ xs) r id h = elim (Bool-cases (x.id == id)) [
    | inl hit ↦
        let same : x ≡ r = cc (rw hit at h) in
        rw (hit, hit) (ap (λ y. some (set_columns columns now m r y)) same)
    | inr miss ↦ rw (miss, miss) (update_hit now m xs r id (rw miss at h))
  ]

  -- The rows after an update of one list.
  pub find-update_where :
      (now : Date) (m : StatusListMaterialization) (rows : List (StatusListTable columns))
      (r : StatusListTable columns) (id j : String)
      → find (has_id columns id) rows ≡ some r
      → find (has_id columns j) (update_where columns now m r id rows)
        ≡ (if id == j then some (set_columns columns now m r r) else find (has_id columns j) rows)
  find-update_where now m rows r id j h = elim (Bool-cases (id == j)) [
    | inl same ↦
        subst
          (λ k.
            find (has_id columns k) (update_where columns now m r id rows)
            ≡ some (set_columns columns now m r r))
          ((eq_iff id j).0 same) (update_hit now m rows r id h)
        ∙ rw same
    | inr other ↦ update_miss now m rows r id j other ∙ rw other
  ]

  -- No id stands twice.
  abbrev pub Unique : List (StatusListTable columns) → Type 0
  Unique [] = Unit
  Unique (r ∷ rows) = (find (has_id columns (r.id)) rows ≡ none) × Unique rows

  pub append-Unique :
      (rows : List (StatusListTable columns)) (r : StatusListTable columns)
      → find (has_id columns (r.id)) rows ≡ none
      → Unique rows
      → Unique (rows ++ r ∷ [])
  append-Unique [] r h u = (refl, tt)
  append-Unique (x ∷ xs) r h (fresh, u) = elim (Bool-cases (x.id == r.id)) [
    | inl same ↦ cc (rw same at h)
    | inr other ↦
        let free : find (has_id columns (r.id)) xs ≡ none = rw other at h in
        (
          find-append_id xs r (x.id) free
              ∙ ground (arith, eq_iff (x.id) (r.id), eq_iff (r.id) (x.id)),
          append-Unique xs r free u,
        )
  ]

  update-none :
      (now : Date) (m : StatusListMaterialization) (rows : List (StatusListTable columns))
      (r : StatusListTable columns) (id j : String)
      → find (has_id columns j) rows ≡ none
      → find (has_id columns j) (update_where columns now m r id rows) ≡ none
  update-none now m [] r id j h = refl
  update-none now m (x ∷ xs) r id j h = ground (arith, update-none now m xs r id j)

  pub update-Unique :
      (now : Date) (m : StatusListMaterialization) (rows : List (StatusListTable columns))
      (r : StatusListTable columns) (id : String)
      → Unique rows
      → Unique (update_where columns now m r id rows)
  update-Unique now m [] r id u = tt
  update-Unique now m (x ∷ xs) r id (fresh, u) =
      let rest = update-Unique now m xs r id u in
      let free = update-none now m xs r id (x.id) fresh in
      elim (Bool-cases (x.id == id)) [
        | inl hit ↦ rw hit (free, rest)
        | inr miss ↦ rw miss (free, rest)
      ]
