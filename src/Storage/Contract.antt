-- ===== src/Storage/Contract.antt =====
-- What a `StorageService` promises (service/src/services/storage.ts, and the contract suite that the
-- repository runs against every backend): a specification of each operation by what the reads show
-- afterwards. The status list manager is proved over it, and the backends fill it.
use Prim.Native.Char.{code}
use vcalm_status_service.Common.{
  ℕ, ◌+◌, ◌≤◌, String, ◌≡◌, ◌≢◌, true, false, none, some, List, [], ◌∷◌, All, Member, ◌==◌, ◌&&◌,
  ◌||◌, if◌then◌else◌, nat_eq, string_eq, is_some,
}
use vcalm_status_service.Errors.{
  Error, Result, ok, err, Action, storage_error, StorageErrorCode, duplicate_list, index_taken,
  credential_already_allocated,
}
use vcalm_status_service.Storage.{
  Date, StatusListRecord, NewStatusListRecord, IndexAllocation, NewIndexAllocation, AllocationQuery,
  StatusListMaterialization, StatusListMutationResult, ListQuery, StorageService, first_version,
  materialized, matches,
}

-- The text holds no NUL, the separator of the in-memory allocation key.
abbrev pub NoNul : String → Type 0
NoNul String.[] = Unit
NoNul (String.◌∷◌ c s) = (code c ≢ 0) × NoNul s

-- An allocation as it is stored.
abbrev pub stamped : Date → NewIndexAllocation → IndexAllocation
stamped now a = record { base = a; allocated_at = now }

-- In the order of creation.
abbrev pub IsSorted : List StatusListRecord → Type 0
IsSorted [] = Unit
IsSorted (x ∷ xs) = All (λ y. x.created_at ≤ y.created_at) xs × IsSorted xs

module _ (S : StorageService) where
  open S use {
    State, opened, create_status_list, get_status_list, find_status_lists, update_status_list,
    allocate_index, get_allocation, is_index_allocated, count_allocations,
  }

  pub record SameLists (s t : State) : Type 0 where
    pub list : (id : String) → get_status_list id t ≡ get_status_list id s

  pub record SameAllocations (s t : State) : Type 0 where
    pub allocation : (q : AllocationQuery) → get_allocation q t ≡ get_allocation q s
    pub allocated : (id : String) (i : ℕ) → is_index_allocated id i t ≡ is_index_allocated id i s
    pub count : (id : String) → count_allocations id t ≡ count_allocations id s

  -- Why an allocation is refused.
  pub data Refused (s : State) (a : NewIndexAllocation) : Error → Type 0 where
    no_list :
        get_status_list (a.list_id) s ≡ none
        → Refused s a (storage_error StorageErrorCode.list_not_found)
    has_index :
        is_some (get_allocation (a.query) s) ≡ true
        → Refused s a (storage_error credential_already_allocated)
    taken :
        is_index_allocated (a.list_id) (a.status_list_index) s ≡ true
        → Refused s a (storage_error index_taken)

  -- What a granted allocation required, and what the reads show after it.
  pub record Granted (now : Date) (a : NewIndexAllocation) (s t : State) : Type 0 where
    pub known : is_some (get_status_list (a.list_id) s) ≡ true
    pub fresh : get_allocation (a.query) s ≡ none
    pub free : is_index_allocated (a.list_id) (a.status_list_index) s ≡ false
    pub lists : SameLists s t
    pub allocation : get_allocation (a.query) t ≡ some (stamped now a)
    pub others :
        (q : AllocationQuery)
        → NoNul (q.tenant_id)
        → NoNul (a.tenant_id)
        → q ≢ a.query
        → get_allocation q t ≡ get_allocation q s
    pub allocated :
        (id : String) (i : ℕ)
        → is_index_allocated id i t
          ≡ (a.list_id == id && a.status_list_index == i || is_index_allocated id i s)
    pub count :
        (id : String)
        → count_allocations id t
          ≡ (if a.list_id == id then count_allocations id s + 1 else count_allocations id s)

  -- How a call of `allocateIndex` may end: granted, or refused with the state as it was.
  abbrev pub Allocates : Date → NewIndexAllocation → State → Result IndexAllocation × State → Type 0
  Allocates now a s (ok x, t) = (x ≡ stamped now a) × Granted now a s t
  Allocates now a s (err e, t) = (t ≡ s) × Refused s a e

  pub record Contract : Type 1 where
    pub IsValid : State → Type 0
    -- A new backend is valid and empty, so that every state that the operations lead to is valid.
    pub opened-IsValid : IsValid opened
    pub get-opened : (id : String) → get_status_list id opened ≡ none
    pub allocation-opened : (q : AllocationQuery) → get_allocation q opened ≡ none
    pub allocated-opened : (id : String) (i : ℕ) → is_index_allocated id i opened ≡ false
    pub count-opened : (id : String) → count_allocations id opened ≡ 0
    pub get_id :
        (s : State) (id : String) (r : StatusListRecord)
        → IsValid s
        → get_status_list id s ≡ some r
        → r.id ≡ id
    pub create_new :
        (now : Date) (r : NewStatusListRecord) (s : State)
        → get_status_list (r.id) s ≡ none
        → (create_status_list now r s).0 ≡ ok (first_version now r)
    pub get-create :
        (now : Date) (r : NewStatusListRecord) (s : State) (id : String)
        → get_status_list (r.id) s ≡ none
        → get_status_list id (create_status_list now r s).1
          ≡ (if r.id == id then some (first_version now r) else get_status_list id s)
    pub create_duplicate :
        (now : Date) (r : NewStatusListRecord) (s : State) (x : StatusListRecord)
        → get_status_list (r.id) s ≡ some x
        → create_status_list now r s ≡ (err (storage_error duplicate_list), s)
    pub create-SameAllocations :
        (now : Date) (r : NewStatusListRecord) (s : State)
        → SameAllocations s (create_status_list now r s).1
    pub create-IsValid :
        (now : Date) (r : NewStatusListRecord) (s : State)
        → IsValid s
        → IsValid (create_status_list now r s).1
    pub find_sound :
        (q : ListQuery) (s : State)
        → IsValid s
        → All
            (λ r. (matches q r ≡ true) × (get_status_list (r.id) s ≡ some r))
            (find_status_lists q s)
    pub find_complete :
        (q : ListQuery) (s : State) (id : String) (r : StatusListRecord)
        → IsValid s
        → get_status_list id s ≡ some r
        → matches q r ≡ true
        → Member r (find_status_lists q s)
    pub find-IsSorted : (q : ListQuery) (s : State) → IsSorted (find_status_lists q s)
    pub allocate_index_lem :
        (now : Date) (a : NewIndexAllocation) (s : State)
        → Allocates now a s (allocate_index now a s)
    pub allocate-IsValid :
        (now : Date) (a : NewIndexAllocation) (s : State)
        → IsValid s
        → IsValid (allocate_index now a s).1
    -- Updates, by how `mutate` ends.
    pub update_missing :
        (W T : Type 0) (clock : W → Date × W) (id : String)
        (mutate : StatusListRecord → Action W (StatusListMutationResult T)) (s : State) (w : W)
        → get_status_list id s ≡ none
        → update_status_list W T clock id mutate (s, w)
          ≡ (err (storage_error StorageErrorCode.list_not_found), (s, w))
    pub update_failed :
        (W T : Type 0) (clock : W → Date × W) (id : String)
        (mutate : StatusListRecord → Action W (StatusListMutationResult T)) (s : State) (w : W)
        (r : StatusListRecord) (e : Error) (w' : W)
        → get_status_list id s ≡ some r
        → mutate r w ≡ (err e, w')
        → update_status_list W T clock id mutate (s, w) ≡ (err e, (s, w'))
    pub update_untouched :
        (W T : Type 0) (clock : W → Date × W) (id : String)
        (mutate : StatusListRecord → Action W (StatusListMutationResult T)) (s : State) (w : W)
        (r : StatusListRecord) (x : T) (w' : W)
        → get_status_list id s ≡ some r
        → mutate r w ≡ (ok (record { materialization = none; result = x }), w')
        → update_status_list W T clock id mutate (s, w) ≡ (ok x, (s, w'))
    pub update_written :
        (W T : Type 0) (clock : W → Date × W) (id : String)
        (mutate : StatusListRecord → Action W (StatusListMutationResult T)) (s : State) (w : W)
        (r : StatusListRecord) (m : StatusListMaterialization) (x : T) (w' : W)
        → get_status_list id s ≡ some r
        → mutate r w ≡ (ok (record { materialization = some m; result = x }), w')
        → (t : State) × (update_status_list W T clock id mutate (s, w) ≡ (ok x, (t, (clock w').1)))
          × ((j : String)
              → get_status_list j t
                ≡ (if id == j then some (materialized (clock w').0 m r) else get_status_list j s))
          × SameAllocations s t
          × (IsValid s → IsValid t)
