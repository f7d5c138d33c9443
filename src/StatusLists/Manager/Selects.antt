-- ===== src/StatusLists/Manager/Selects.antt =====
-- Which list an allocation uses: `#chosenList` and `#listForPurpose` of
-- service/src/status-lists/manager.ts, over any storage that keeps its contract.
use vcalm_status_service.Common.{
  ◌<◌, ◌*◌, ◌≡◌, ◌≢◌, refl, true, none, some, arith, string_eq, nat_eq, inl, inr, eq_iff, ltb→lt,
  lt→ltb, beq_ne, Member, Option-cases, false, ◌≤◌,
}
use vcalm_status_service.Errors.{Result, ok, err, status_list_error, list_purpose_mismatch}
use vcalm_status_service.Storage.{
  StatusListRecord, StatusListCharacteristics, AllocationQuery, StorageService, ListQuery, matches,
  purpose_eq, minimum_list_length,
}
use vcalm_status_service.Storage.Contract.{Contract}
use vcalm_status_service.Tenants.{IssuerInstance}
use vcalm_status_service.Signing.{SigningService, Signs}
use vcalm_status_service.StatusLists.Bitstring.{BitstringLibrary, BitstringLaws}
use vcalm_status_service.StatusLists.Manager.Finds.{
  All-reverse, find-All, find-none, Member-reverse, find-latest,
}
use vcalm_status_service.StatusLists.Manager.Effects.{Outside, World}
use vcalm_status_service.StatusLists.Manager.{
  Deps, CreateStatusListInput, default_instance_for, characteristics_of,
}
use vcalm_status_service.StatusLists.Manager.Creates.{Creates, create_list-Creates, new_url}
use vcalm_status_service.StatusLists.Manager.Allocation.{
  chosen_list, has_room, newest_with_room, list_for_purpose, allocate_for_credential,
}

-- The query that the choice of a list makes.
abbrev wanted : AllocationQuery → ListQuery
wanted q = record {
  tenant_id = q.tenant_id;
  status_purpose = some q.status_purpose;
  issuer_instance_id = none;
}

matches-wanted :
    (q : AllocationQuery) (r : StatusListRecord)
    → matches (wanted q) r ≡ true
    → (r.tenant_id ≡ q.tenant_id) × (r.status_purpose ≡ q.status_purpose)
matches-wanted q r h = ground (
  arith,
  eq_iff (r.tenant_id) (q.tenant_id),
  purpose_eq.agrees (r.status_purpose) (q.status_purpose),
)

wanted-matches :
    (q : AllocationQuery) (r : StatusListRecord)
    → r.tenant_id ≡ q.tenant_id
    → r.status_purpose ≡ q.status_purpose
    → matches (wanted q) r ≡ true
wanted-matches q r h k = ground (
  arith,
  eq_iff (r.tenant_id) (q.tenant_id),
  purpose_eq.agrees (r.status_purpose) (q.status_purpose),
)

module _ (lib : BitstringLibrary) (storage : StorageService) (signing : SigningService)
    (deps : Deps) (q : AllocationQuery) (s : storage.State) (o : Outside signing) where
  -- What a roll creates.
  abbrev pub fresh_input : IssuerInstance → CreateStatusListInput
  fresh_input inst = record {
    tenant_id = q.tenant_id;
    instance_of = inst;
    status_purpose = q.status_purpose;
    id = none;
    url = none;
    characteristics = none;
  }

  abbrev pub fresh_characteristics : StatusListCharacteristics
  fresh_characteristics = record {
    length = minimum_list_length;
    status_size = 1;
    status_message = none;
    ttl = none;
  }

  -- A list that an allocation may use.
  pub record Suits (list : StatusListRecord) : Type 0 where
    pub stored : storage.get_status_list (list.id) s ≡ some list
    pub tenant : list.tenant_id ≡ q.tenant_id
    pub purpose : list.status_purpose ≡ q.status_purpose
    pub room :
        storage.count_allocations (list.id) s * deps.roll_denominator
        < list.characteristics.length * deps.roll_numerator

  module _ (contract : Contract storage) (valid : contract.IsValid s) where
    newest-Suits :
        (list : StatusListRecord)
        → newest_with_room lib storage signing deps q (s, o) ≡ some list
        → Suits list
    newest-Suits list e =
        let ((ok_query, stored), room) =
          find-All
            (λ r. (matches (wanted q) r ≡ true) × (storage.get_status_list (r.id) s ≡ some r))
            (has_room lib storage signing deps s) _ list
            (All-reverse _ _ (contract.find_sound (wanted q) s valid)) e in
        let (tenant, purpose) = matches-wanted q list ok_query in
        record { stored = stored; tenant = tenant; purpose = purpose; room = ltb→lt _ _ room }

    -- A list that suits is among the candidates.
    Suits-Member :
        (list : StatusListRecord)
        → Suits list
        → Member list (storage.find_status_lists (wanted q) s)
    Suits-Member list fit =
        contract.find_complete (wanted q) s (list.id) list valid fit.stored
          (wanted-matches q list fit.tenant fit.purpose)

    newest_created :
        (list other : StatusListRecord)
        → newest_with_room lib storage signing deps q (s, o) ≡ some list
        → Suits other
        → other.created_at ≤ list.created_at
    newest_created list other e fit =
        find-latest (has_room lib storage signing deps s) (storage.find_status_lists (wanted q) s)
          list other (contract.find-IsSorted (wanted q) s) e (Suits-Member other fit)
          (lt→ltb _ _ fit.room)

    none_fits :
        ((list : StatusListRecord) → ¬ Suits list)
        → newest_with_room lib storage signing deps q (s, o) ≡ none
    none_fits full = elim (Option-cases (newest_with_room lib storage signing deps q (s, o))) [
      | inl absent ↦ absent
      | inr (list, e) ↦ absurd (full list (newest-Suits list e))
    ]

    some_fits :
        (other : StatusListRecord)
        → Suits other
        → (list : StatusListRecord) × (newest_with_room lib storage signing deps q (s, o)
            ≡ some list)
    some_fits other fit = elim (Option-cases (newest_with_room lib storage signing deps q (s, o))) [
      | inl absent ↦
          let full : has_room lib storage signing deps s other ≡ false =
            find-none (has_room lib storage signing deps s) _ other absent (
              Member-reverse other (storage.find_status_lists (wanted q) s)
                (Suits-Member other fit)) in
          let room : has_room lib storage signing deps s other ≡ true = lt→ltb _ _ fit.room in cc
      | inr found ↦ found
    ]

    -- The list that is chosen, if one suits: the newest that does, and nothing is changed.
    pub record Chooses (outcome : Result StatusListRecord × World signing storage) : Type 0 where
      pub chosen : StatusListRecord
      pub returns : outcome ≡ (ok chosen, (s, o))
      pub suits : Suits chosen
      pub newest : (other : StatusListRecord) → Suits other → other.created_at ≤ chosen.created_at

    -- Over a storage that keeps its contract, a lawful bit list library and a signer that works for
    -- the tenant's default instance, in a valid state where the next generated id is free: if a
    -- stored list of the tenant for the purpose has fewer allocations than the roll threshold,
    -- `list_for_purpose` gives such a list, none of them being newer, and changes nothing; if there
    -- is no such list, it creates a fresh one for that tenant and purpose, of 131072 entries, all
    -- clear.
    pub list_for_purpose_lem :
        (laws : BitstringLaws lib) (inst : IssuerInstance) (works : Signs signing inst)
        → default_instance_for deps (q.tenant_id) ≡ some inst
        → storage.get_status_list (deps.generate_id o.draws) s ≡ none
        → ((list : StatusListRecord)
            → Suits list
            → Chooses (list_for_purpose lib storage signing deps q (s, o)))
          × (((list : StatusListRecord) → ¬ Suits list)
              → Creates lib storage signing deps contract
                  (fresh_input inst)
                  fresh_characteristics
                  (deps.generate_id o.draws)
                  (new_url lib storage signing deps (fresh_input inst) o)
                  s
                  (list_for_purpose lib storage signing deps q (s, o)))
    unfolding list_for_purpose characteristics_of
    list_for_purpose_lem laws inst works default free = (
      λ list fit.
          let (chosen, e) = some_fits list fit in
          record {
            chosen = chosen;
            returns = rw e refl;
            suits = newest-Suits chosen e;
            newest = λ other. newest_created chosen other e;
          },
      λ full.
          rw (none_fits full, default)
            (create_list-Creates lib storage signing deps contract laws (fresh_input inst) works
              fresh_characteristics refl s o valid free),
    )

  -- A list that is named must have the purpose that is asked for; otherwise nothing changes.
  pub allocate_for_credential_mismatch :
      (list : StatusListRecord)
      → storage.get_status_list (list.id) s ≡ some list
      → list.tenant_id ≡ q.tenant_id
      → list.status_purpose ≢ q.status_purpose
      → allocate_for_credential lib storage signing deps q (some list.id) (s, o)
        ≡ (err (status_list_error list_purpose_mismatch), (s, o))
  unfolding allocate_for_credential chosen_list
  allocate_for_credential_mismatch list found own other =
      rw (found, (eq_iff _ _).1 own, beq_ne other)
