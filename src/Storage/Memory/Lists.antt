-- ===== src/Storage/Memory/Lists.antt =====
-- The invariant of the map of lists in storage-memory.ts, and `findStatusLists`.
use mathlib.Core.Path.{subst}
use vcalm_status_service.Common.{
  ℕ, ◌≤◌, String, ◌≡◌, refl, sym, true, none, some, List, [], ◌∷◌, arith, ◌==◌, string_eq, eq_iff,
  eq_refl, filter, All, Member, leb, Bool-cases, inl, inr,
}
use vcalm_status_service.Common.Dict
use vcalm_status_service.Common.Dict.{Dict, get-put}
use vcalm_status_service.Storage.{
  Date, StatusListRecord, NewStatusListRecord, NewIndexAllocation, ListQuery, first_version,
  matches,
}
use vcalm_status_service.Storage.Contract.{IsSorted}
use vcalm_status_service.Storage.Memory.{
  MemoryStorage, insert_by_date, sort_by_date, find_status_lists, get_status_list,
  create_status_list, allocate_index, granted,
}

-- Each list stands under its own id, and no id stands twice.
abbrev pub Keyed : Dict StatusListRecord → Type 0
Keyed [] = Unit
Keyed ((k, r) ∷ m) = (r.id ≡ k) × (Dict.get k m ≡ none) × Keyed m

abbrev pub IsValid : MemoryStorage → Type 0
IsValid s = Keyed s.lists

pub put-Keyed :
    (r : StatusListRecord) (m : Dict StatusListRecord) → Keyed m → Keyed (Dict.put (r.id) r m)
put-Keyed r [] h = (refl, refl, tt)
put-Keyed r ((k, x) ∷ m) (same, fresh, h) =
    ground (arith, put-Keyed r m h, get-put (r.id) k r m, eq_iff k (r.id), eq_iff (r.id) k)

get_id_of_Keyed :
    (id : String) (r : StatusListRecord) (m : Dict StatusListRecord)
    → Keyed m
    → Dict.get id m ≡ some r
    → r.id ≡ id
get_id_of_Keyed id r [] h e = cc
get_id_of_Keyed id r ((k, x) ∷ m) (same, fresh, h) e =
    ground (arith, get_id_of_Keyed id r m h, eq_iff k id)

pub get_status_list-id :
    (s : MemoryStorage) (id : String) (r : StatusListRecord)
    → IsValid s
    → get_status_list id s ≡ some r
    → r.id ≡ id
unfolding get_status_list
get_status_list-id s id r = get_id_of_Keyed id r s.lists

pub create-IsValid :
    (now : Date) (r : NewStatusListRecord) (s : MemoryStorage)
    → IsValid s
    → IsValid (create_status_list now r s).1
unfolding create_status_list
create-IsValid now r s h = ground (arith, put-Keyed (first_version now r) s.lists h)

pub allocate-IsValid :
    (now : Date) (a : NewIndexAllocation) (s : MemoryStorage)
    → IsValid s
    → IsValid (allocate_index now a s).1
unfolding allocate_index granted
allocate-IsValid now a s h = ground arith

-- A write keeps the invariant where the list keeps its id.
pub written-IsValid :
    (s : MemoryStorage) (id : String) (r : StatusListRecord)
    → IsValid s
    → r.id ≡ id
    → IsValid (record s { lists = Dict.put id r s.lists })
written-IsValid s id r h e = subst (λ k. Keyed (Dict.put k r s.lists)) e (put-Keyed r s.lists h)

-- Sorting and filtering keep what holds of every list.
module _ (P : StatusListRecord → Type 0) where
  All-insert_by_date :
      (r : StatusListRecord) (rs : List StatusListRecord)
      → P r
      → All P rs
      → All P (insert_by_date r rs)
  All-insert_by_date r [] p h = (p, tt)
  All-insert_by_date r (x ∷ xs) p (q, h) = elim (Bool-cases (leb r.created_at x.created_at)) [
    | inl before ↦ rw before (p, (q, h))
    | inr after ↦ rw after (q, All-insert_by_date r xs p h)
  ]

  pub All-sort_by_date : (rs : List StatusListRecord) → All P rs → All P (sort_by_date rs)
  All-sort_by_date [] h = tt
  All-sort_by_date (r ∷ rs) (p, h) =
      All-insert_by_date r (sort_by_date rs) p (All-sort_by_date rs h)

module _ (q : ListQuery) (whole : Dict StatusListRecord) where
  abbrev Found : StatusListRecord → Type 0
  Found r = (matches q r ≡ true) × (Dict.get (r.id) whole ≡ some r)

  -- Over the rest of the map, each of whose entries is found in the whole.
  Found-in_rest :
      (m : Dict StatusListRecord)
      → ((k : String) (r : StatusListRecord) → Dict.get k m ≡ some r → Dict.get k whole ≡ some r)
      → Keyed m
      → All Found (filter (matches q) (Dict.values m))
  Found-in_rest [] sub h = tt
  Found-in_rest ((k, r) ∷ m) sub (same, fresh, h) =
      let rest = Found-in_rest m (λ j x e. sub j x (later j x e)) h in
      elim (Bool-cases (matches q r)) [
        | inl hit ↦ rw hit (
          (hit, subst (λ j. Dict.get j whole ≡ some r) (sym same) (sub k r (rw (eq_refl k)))),
          rest,
        )
        | inr miss ↦ rw miss rest
      ]
    where
      later :
          (j : String) (x : StatusListRecord)
          → Dict.get j m ≡ some x
          → Dict.get j ((k, r) ∷ m) ≡ some x
      later j x e = ground (arith, eq_iff k j, fresh)

-- What `findStatusLists` returns matches the query and is stored.
pub find_sound :
    (q : ListQuery) (s : MemoryStorage)
    → IsValid s
    → All (λ r. (matches q r ≡ true) × (get_status_list (r.id) s ≡ some r)) (find_status_lists q s)
unfolding find_status_lists get_status_list
find_sound q s h =
    All-sort_by_date (Found q s.lists) (filter (matches q) (Dict.values s.lists))
      (Found-in_rest q s.lists s.lists (λ k r e. e) h)

-- Sorting keeps every member.
Member-insert_by_date :
    (a r : StatusListRecord) (rs : List StatusListRecord)
    → Member a (r ∷ rs)
    → Member a (insert_by_date r rs)
Member-insert_by_date a r [] h = h
Member-insert_by_date a r (x ∷ xs) (inl e) = elim (Bool-cases (leb r.created_at x.created_at)) [
  | inl before ↦ rw before (inl e)
  | inr after ↦ rw after (inr (Member-insert_by_date a r xs (inl e)))
]
Member-insert_by_date a r (x ∷ xs) (inr (inl e)) =
    elim (Bool-cases (leb r.created_at x.created_at)) [
      | inl before ↦ rw before (inr (inl e))
      | inr after ↦ rw after (inl e)
    ]
Member-insert_by_date a r (x ∷ xs) (inr (inr m)) =
    elim (Bool-cases (leb r.created_at x.created_at)) [
      | inl before ↦ rw before (inr (inr m))
      | inr after ↦ rw after (inr (Member-insert_by_date a r xs (inr m)))
    ]

pub Member-sort_by_date :
    (a : StatusListRecord) (rs : List StatusListRecord) → Member a rs → Member a (sort_by_date rs)
Member-sort_by_date a (r ∷ rs) (inl e) = Member-insert_by_date a r (sort_by_date rs) (inl e)
Member-sort_by_date a (r ∷ rs) (inr m) =
    Member-insert_by_date a r (sort_by_date rs) (inr (Member-sort_by_date a rs m))
Member-sort_by_date a [] h = elim h [ ]

Member-filter :
    (q : ListQuery) (id : String) (a : StatusListRecord) (m : Dict StatusListRecord)
    → Dict.get id m ≡ some a
    → matches q a ≡ true
    → Member a (filter (matches q) (Dict.values m))
Member-filter q id a [] e h = cc
Member-filter q id a ((k, r) ∷ m) e h = elim (Bool-cases (k == id)) [
  | inl same ↦ let here : r ≡ a = ground arith in rw (here, h) (inl refl)
  | inr other ↦
      let rest = Member-filter q id a m (ground arith) h in
      elim (Bool-cases (matches q r)) [ inl hit ↦ rw hit (inr rest) | inr miss ↦ rw miss rest ]
]

-- Every stored list that matches a query is among the lists that `find_status_lists` returns for
-- it.
pub find_complete :
    (q : ListQuery) (s : MemoryStorage) (id : String) (a : StatusListRecord)
    → get_status_list id s ≡ some a
    → matches q a ≡ true
    → Member a (find_status_lists q s)
unfolding find_status_lists get_status_list
find_complete q s id a e h = Member-sort_by_date a _ (Member-filter q id a s.lists e h)

All-later :
    (a b : ℕ) (rs : List StatusListRecord)
    → a ≤ b
    → All (λ y. b ≤ y.created_at) rs
    → All (λ y. a ≤ y.created_at) rs
All-later a b [] h k = tt
All-later a b (x ∷ xs) h (k, ks) = (omega arith, All-later a b xs h ks)

IsSorted-insert_by_date :
    (r : StatusListRecord) (rs : List StatusListRecord)
    → IsSorted rs
    → IsSorted (insert_by_date r rs)
IsSorted-insert_by_date r [] h = (tt, tt)
IsSorted-insert_by_date r (x ∷ xs) (first, h) = elim (Bool-cases (leb r.created_at x.created_at)) [
  | inl before ↦
      let le : r.created_at ≤ x.created_at = ground arith in
      rw before ((le, All-later _ _ xs le first), (first, h))
  | inr after ↦
      let le : x.created_at ≤ r.created_at = ground arith in
      rw after (
        All-insert_by_date (λ y. x.created_at ≤ y.created_at) r xs le first,
        IsSorted-insert_by_date r xs h,
      )
]

pub IsSorted-sort_by_date : (rs : List StatusListRecord) → IsSorted (sort_by_date rs)
IsSorted-sort_by_date [] = tt
IsSorted-sort_by_date (r ∷ rs) =
    IsSorted-insert_by_date r (sort_by_date rs) (IsSorted-sort_by_date rs)

-- The lists that `find_status_lists` returns stand in the order of their creation.
pub find-IsSorted : (q : ListQuery) (s : MemoryStorage) → IsSorted (find_status_lists q s)
unfolding find_status_lists
find-IsSorted q s = IsSorted-sort_by_date (filter (matches q) (Dict.values s.lists))
