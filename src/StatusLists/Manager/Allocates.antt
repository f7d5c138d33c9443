-- ===== src/StatusLists/Manager/Allocates.antt =====
-- `allocateIndex` of service/src/status-lists/manager.ts, over any storage that keeps its contract.
use mathlib.Core.Path.{subst}
use vcalm_status_service.Common.{
  ℕ, zero, suc, ◌+◌, ◌<◌, String, ◌≡◌, refl, sym, ◌⊎◌, inl, inr, true, false, none, some, ◌==◌,
  string_eq, eq_iff, is_some, Bool-cases,
}
use vcalm_status_service.Errors.{
  Result, ok, err, Action, status_list_error, storage_error, StatusListErrorCode, list_exhausted,
  credential_already_allocated,
}
use vcalm_status_service.Storage.{
  Date, StatusListRecord, AllocationQuery, NewIndexAllocation, IndexAllocation, StorageService,
}
use vcalm_status_service.Storage.Contract.{
  Contract, Granted, Allocates, stamped, no_list, has_index, taken,
}
use vcalm_status_service.Signing.{SigningService}
use vcalm_status_service.StatusLists.Bitstring.{BitstringLibrary}
use vcalm_status_service.StatusLists.Manager.Effects.{Outside, World}
use vcalm_status_service.StatusLists.Manager.{Deps, allocation_attempts, reading}
use vcalm_status_service.StatusLists.Manager.Allocation.{
  or_next, attempt, attempts, owned_by, allocate_index,
}

module _ (storage : StorageService) (signing : SigningService) (deps : Deps) (q : AllocationQuery)
    (list : StatusListRecord) (s : storage.State) where
  -- The draw gave this index.
  abbrev pub probe : ℕ → ℕ
  probe k = deps.random_index k (list.characteristics.length)

  -- The probes from draw k on all hit a taken index.
  abbrev pub AllTaken : ℕ → ℕ → Type 0
  AllTaken zero k = Unit
  AllTaken (suc n) k =
      (storage.is_index_allocated (list.id) (probe k) s ≡ true) × AllTaken n (k + 1)

  abbrev pub request : ℕ → NewIndexAllocation
  request i = record { query = q; list_id = list.id; status_list_index = i }

  -- A granted allocation: an index of the list, as storage was asked to store it.
  pub record Grants (a : IndexAllocation) (t : storage.State) : Type 0 where
    pub index : ℕ
    pub now : Date
    pub in_range : index < list.characteristics.length
    pub is_stamped : a ≡ stamped now (request index)
    pub granted : Granted storage now (request index) s t

  -- How n attempts from draw k on may end.
  abbrev pub Ends : ℕ → ℕ → Result IndexAllocation × World signing storage → Type 0
  Ends n k (ok a, (t, o)) = Grants a t
  Ends n k (err e, (t, o)) =
      (t ≡ s)
      × ((e ≡ status_list_error list_exhausted) × AllTaken n k
          ⊎ (e ≡ storage_error credential_already_allocated)
            × (is_some (storage.get_allocation q s) ≡ true))

module _ (lib : BitstringLibrary) (storage : StorageService) (contract : Contract storage)
    (signing : SigningService) (deps : Deps) (q : AllocationQuery) (list : StatusListRecord)
    (s : storage.State) (known : storage.get_status_list (list.id) s ≡ some list)
    (in_range : (k n : ℕ) → 0 < n → deps.random_index k n < n)
    (nonempty : 0 < list.characteristics.length) where
  -- An attempt at a free index, by the storage's answer.
  answered :
      (n k i : ℕ) (now : Date) (o : Outside signing)
      (next : Action (World signing storage) IndexAllocation)
      → i < list.characteristics.length
      → storage.is_index_allocated (list.id) i s ≡ false
      → (x : Result IndexAllocation × storage.State)
      → Allocates storage now (request storage signing deps q list s i) s x
      → Ends storage signing deps q list s n k
          (or_next lib storage signing deps next (x.0, (x.1, o)))
  answered n k i now o next small free (ok a, t) (same, granted) = record {
    index = i;
    now = now;
    in_range = small;
    is_stamped = same;
    granted = granted;
  }
  answered n k i now o next small free (err e, t) (same, no_list missing) = cc
  answered n k i now o next small free (err e, t) (same, has_index h) = (same, inr (refl, h))
  answered n k i now o next small free (err e, t) (same, taken h) = cc

  later :
      (n k : ℕ) (x : Result IndexAllocation × World signing storage)
      → storage.is_index_allocated (list.id) (probe storage signing deps q list s k) s ≡ true
      → Ends storage signing deps q list s n (k + 1) x
      → Ends storage signing deps q list s (suc n) k x
  later n k (ok a, (t, o)) used h = h
  later n k (err e, (t, o)) used (same, inl (why, all)) = (same, inl (why, (used, all)))
  later n k (err e, (t, o)) used (same, inr h) = (same, inr h)

  attempts_end :
      (n : ℕ) (o : Outside signing)
      → Ends storage signing deps q list s n
          (o.draws)
          (attempts lib storage signing deps n q (list.id) list (s, o))
  unfolding attempts attempt
  attempts_end zero o = (refl, inl (refl, tt))
  attempts_end (suc n) o = elim (Bool-cases (storage.is_index_allocated (list.id) i s)) [
    | inl used ↦ rw used (later n (o.draws) _ used (attempts_end n o1))
    | inr free ↦ rw free (
        answered (suc n) (o.draws) i (reading signing deps o1).0 (reading signing deps o1).1
          (attempts lib storage signing deps n q (list.id) list)
          (in_range (o.draws) (list.characteristics.length) nonempty) free
          (storage.allocate_index (reading signing deps o1).0
            (request storage signing deps q list s i) s)
          (contract.allocate_index_lem (reading signing deps o1).0
            (request storage signing deps q list s i) s))
  ]
    where
      i : ℕ
      i = probe storage signing deps q list s (o.draws)

      o1 : Outside signing
      o1 = record o { draws = o.draws + 1 }

module _ (lib : BitstringLibrary) (storage : StorageService) (signing : SigningService)
    (deps : Deps) (q : AllocationQuery) (list_id : String) (s : storage.State)
    (o : Outside signing) where
  -- A list that does not exist, or that another tenant owns, is not found, and nothing changes.
  pub allocate_index_foreign :
      owned_by lib storage signing deps (q.tenant_id) (storage.get_status_list list_id s) ≡ none
      → allocate_index lib storage signing deps q list_id (s, o)
        ≡ (err (status_list_error StatusListErrorCode.list_not_found), (s, o))
  unfolding allocate_index
  allocate_index_foreign h = rw h

  module _ (contract : Contract storage) (valid : contract.IsValid s) (list : StatusListRecord)
      (found : storage.get_status_list list_id s ≡ some list) (owned : list.tenant_id ≡ q.tenant_id)
      (in_range : (k n : ℕ) → 0 < n → deps.random_index k n < n)
      (nonempty : 0 < list.characteristics.length) where
    -- Over a storage that keeps its contract and in a valid state, with draws in range: a call of
    -- `allocate_index` on a list of the tenant's own that has entries ends in one of three ways. It
    -- grants an index of the list that was free to a credential that had none, and storage shows
    -- just that; or all 64 probes hit a taken index, the list counts as exhausted and storage is
    -- unchanged; or the credential has an index already and storage is unchanged.
    pub allocate_index-Ends :
        Ends storage signing deps q list s allocation_attempts
          (o.draws)
          (allocate_index lib storage signing deps q list_id (s, o))
    unfolding allocate_index
    allocate_index-Ends =
        let same : list.id ≡ list_id = contract.get_id s list_id list valid found in
        let own : (list.tenant_id == q.tenant_id) ≡ true = (eq_iff _ _).1 owned in
        rw (found, own)
          (subst
            (λ j.
              Ends storage signing deps q list s allocation_attempts (o.draws)
                (attempts lib storage signing deps allocation_attempts q j list (s, o)))
            same
            (attempts_end lib storage contract signing deps q list s
              (subst (λ j. storage.get_status_list j s ≡ some list) (sym same) found) in_range
              nonempty allocation_attempts o))
