-- ===== src/StatusLists/Manager/Allocation.antt =====
-- `allocateIndex`, `allocateForCredential` and the choice of a list of
-- service/src/status-lists/manager.ts.
use mathlib.Core.List.{reverse}
use vcalm_status_service.Common.{
  ℕ, zero, suc, ◌*◌, String, Bool, not, Option, none, some, find, ◌==◌, nat_eq, string_eq,
  if◌then◌else◌, ltb,
}
use vcalm_status_service.Errors.{
  Result, err, Action, pure, throw, gets, or_throw, throw_if, ◌>>=◌, ◌>>◌, status_list_error,
  storage_error, StatusListErrorCode, index_taken, list_purpose_mismatch,
  issuer_instance_unavailable, list_exhausted,
}
use vcalm_status_service.Storage.{
  purpose_eq, StatusListRecord, AllocationQuery, NewIndexAllocation, IndexAllocation,
  StorageService,
}
use vcalm_status_service.Signing.{SigningService}
use vcalm_status_service.StatusLists.Bitstring.{BitstringLibrary}
use vcalm_status_service.StatusLists.Manager.Effects.{get_list, World, outside, in_storage, draw}
use vcalm_status_service.StatusLists.Manager.{
  reading, Deps, Allocated, allocation_attempts, default_instance_for,
}
use vcalm_status_service.StatusLists.Manager.Lists.{create_list}

module _ (lib : BitstringLibrary) (storage : StorageService) (signing : SigningService)
    (deps : Deps) where
  -- The `catch` of one attempt: a lost race goes on to the next attempt.
  abbrev pub or_next :
      Action (World signing storage) IndexAllocation
      → Result IndexAllocation × World signing storage
      → Result IndexAllocation × World signing storage
  or_next next (err (storage_error index_taken), w) = next w
  or_next next (r, w) = (r, w)

  -- One round of the loop of `allocateIndex`, and what follows it.
  unfoldable pub attempt :
      NewIndexAllocation
      → Action (World signing storage) IndexAllocation
      → Action (World signing storage) IndexAllocation
  attempt a next (s, o) =
      if storage.is_index_allocated (a.list_id) (a.status_list_index) s
      then next (s, o)
      else let (now, o') = reading signing deps o in
        or_next next (in_storage signing storage (storage.allocate_index now a) (s, o'))

  -- The loop, over the attempts left.
  unfoldable pub attempts :
      ℕ
      → AllocationQuery
      → String
      → StatusListRecord
      → Action (World signing storage) IndexAllocation
  attempts zero q list_id list = throw (status_list_error list_exhausted)
  attempts (suc n) q list_id list = do
    i ←
        outside signing storage
          (draw signing (λ k. deps.random_index k (list.characteristics.length)))
    attempt (record { query = q; list_id = list_id; status_list_index = i })
        (attempts n q list_id list)

  -- `list === undefined || list.tenantId !== tenantId`, negated
  abbrev pub owned_by : String → Option StatusListRecord → Option StatusListRecord
  owned_by tenant_id none = none
  owned_by tenant_id (some list) = if list.tenant_id == tenant_id then some list else none

  -- `allocateIndex`
  unfoldable pub allocate_index :
      AllocationQuery → String → Action (World signing storage) IndexAllocation
  allocate_index q list_id = do
    found ← gets (get_list signing storage list_id)
    list ←
        or_throw (owned_by (q.tenant_id) found)
          (status_list_error StatusListErrorCode.list_not_found)
    attempts allocation_attempts q list_id list

  -- `#chosenList`
  unfoldable pub chosen_list :
      AllocationQuery → String → Action (World signing storage) StatusListRecord
  chosen_list q list_id = do
    found ← gets (get_list signing storage list_id)
    list ←
        or_throw (owned_by (q.tenant_id) found)
          (status_list_error StatusListErrorCode.list_not_found)
    throw_if (not (list.status_purpose == q.status_purpose))
        (status_list_error list_purpose_mismatch)
    pure list

  -- `used < candidate.characteristics.length * this.#rollAtFill`
  abbrev pub has_room : storage.State → StatusListRecord → Bool
  has_room s list =
      ltb (storage.count_allocations (list.id) s * deps.roll_denominator)
        (list.characteristics.length * deps.roll_numerator)

  -- The newest list that has room.
  abbrev pub newest_with_room : AllocationQuery → World signing storage → Option StatusListRecord
  newest_with_room q (s, o) = find (has_room s) (
      reverse (
        storage.find_status_lists
          (record {
            tenant_id = q.tenant_id;
            status_purpose = some q.status_purpose;
            issuer_instance_id = none;
          })
          s))

  abbrev pub or_create :
      AllocationQuery → Option StatusListRecord → Action (World signing storage) StatusListRecord
  or_create q (some list) = pure list
  or_create q none = do
    inst ←
        or_throw (default_instance_for deps (q.tenant_id))
          (status_list_error issuer_instance_unavailable)
    create_list lib storage signing deps (record {
      tenant_id = q.tenant_id;
      instance_of = inst;
      status_purpose = q.status_purpose;
      id = none;
      url = none;
      characteristics = none;
    })

  -- `#listForPurpose`
  unfoldable pub list_for_purpose :
      AllocationQuery → Action (World signing storage) StatusListRecord
  list_for_purpose q = do found ← gets (newest_with_room q); or_create q found

  abbrev pub selected :
      AllocationQuery → Option String → Action (World signing storage) StatusListRecord
  selected q none = list_for_purpose q
  selected q (some list_id) = chosen_list q list_id

  -- `allocateForCredential`
  unfoldable pub allocate_for_credential :
      AllocationQuery → Option String → Action (World signing storage) Allocated
  allocate_for_credential q list_id = do
    list ← selected q list_id
    allocation ← allocate_index q (list.id)
    pure (record { allocation = allocation; list = list })
