-- ===== src/StatusLists/Manager/RoundTrip.antt =====
-- `allocateIndex` and then `setCredentialStatus`, and two calls of `setStatus`, of
-- service/src/status-lists/manager.ts.
use mathlib.Core.Path.{subst}
use vcalm_status_service.Common.{
  ℕ, ◌<◌, ◌≡◌, sym, ap, ◌∙◌, Bool, true, false, not, none, some, string_eq, nat_eq, eq_refl,
  beq_self,
}
use vcalm_status_service.Json.{nat}
use vcalm_status_service.Errors.{Result, ok, err, status_list_error, credential_not_allocated}
use vcalm_status_service.Storage.{
  StatusListRecord, StatusListCharacteristics, AllocationQuery, IndexAllocation, StorageService,
}
use vcalm_status_service.Storage.Contract.{Contract}
use vcalm_status_service.Tenants.{IssuerInstance}
use vcalm_status_service.Signing.{SigningService, Signs}
use vcalm_status_service.StatusLists.Bitstring.{BitstringLibrary, BitstringLaws, read_status}
use vcalm_status_service.StatusLists.Manager.Effects.{Outside, World}
use vcalm_status_service.StatusLists.Manager.{Deps, StatusChange, instance_for, allocation_attempts}
use vcalm_status_service.StatusLists.Manager.Lists.{set_status, set_credential_status}
use vcalm_status_service.StatusLists.Manager.Allocation.{allocate_index}
use vcalm_status_service.StatusLists.Manager.Updates.{IsReadable}
use vcalm_status_service.StatusLists.Manager.SetStatus.{
  Writes, set_status-Writes, set_status_redundant,
}
use vcalm_status_service.StatusLists.Manager.Allocates.{Ends, Grants, allocate_index-Ends}

module _ (lib : BitstringLibrary) (storage : StorageService) (signing : SigningService)
    (deps : Deps) where
  -- A credential that was never allocated an index for the purpose is refused, and nothing changes.
  pub set_credential_status_unallocated :
      (q : AllocationQuery) (v : Bool) (s : storage.State) (o : Outside signing)
      → storage.get_allocation q s ≡ none
      → set_credential_status lib storage signing deps q v (s, o)
        ≡ (err (status_list_error credential_not_allocated), (s, o))
  unfolding set_credential_status
  set_credential_status_unallocated q v s o h = rw h

  pub set_credential_status_allocated :
      (q : AllocationQuery) (v : Bool) (s : storage.State) (o : Outside signing)
      (a : IndexAllocation)
      → storage.get_allocation q s ≡ some a
      → set_credential_status lib storage signing deps q v (s, o)
        ≡ set_status lib storage signing deps (a.list_id) (nat (a.status_list_index)) v (s, o)
  unfolding set_credential_status
  set_credential_status_allocated q v s o a h = rw h

  instance_for_same :
      (r x : StatusListRecord)
      → x.tenant_id ≡ r.tenant_id
      → x.issuer_instance_id ≡ r.issuer_instance_id
      → instance_for deps x ≡ instance_for deps r
  unfolding instance_for
  instance_for_same r x h k = rw (h, k)

  module _ (contract : Contract storage) (laws : BitstringLaws lib) (list : StatusListRecord)
      (inst : IssuerInstance) (works : Signs signing inst)
      (available : instance_for deps list ≡ some inst) where
    -- Over a storage that keeps its contract, a lawful bit list library and a signer that works for
    -- the list's available instance: if `allocate_index` granted a credential an index of its
    -- tenant's own readable, non-empty list with every entry clear, with draws in range and valid
    -- states before and after, then setting the status of that credential writes exactly the entry
    -- that was allocated, in that list, and nothing else.
    pub allocate_index-set_credential_status :
        (q : AllocationQuery) (s t : storage.State) (o o' p : Outside signing) (a : IndexAllocation)
        → contract.IsValid s
        → contract.IsValid t
        → storage.get_status_list (list.id) s ≡ some list
        → list.tenant_id ≡ q.tenant_id
        → ((k n : ℕ) → 0 < n → deps.random_index k n < n)
        → 0 < list.characteristics.length
        → IsReadable lib list
        → ((i : ℕ)
            → i < list.characteristics.length
            → read_status lib (list.encoded_list) i ≡ some false)
        → allocate_index lib storage signing deps q (list.id) (s, o) ≡ (ok a, (t, o'))
        → Writes lib storage signing deps contract
            (list.id)
            (a.status_list_index)
            true
            list
            t
            (set_credential_status lib storage signing deps q true (t, p))
    allocate_index-set_credential_status q s t o o' p a valid valid_t found own in_range nonempty
          readable clear e =
        let ends =
          allocate_index-Ends lib storage signing deps q (list.id) s o contract valid list found own
            in_range nonempty in
        let g : Grants storage signing deps q list s a t =
          subst (Ends storage signing deps q list s allocation_attempts (o.draws)) e ends in
        let stored : storage.get_allocation q t ≡ some a =
          g.granted.allocation ∙ sym (ap (λ b. some b) (g.is_stamped)) in
        let place : a.list_id ≡ list.id = ap (λ (x : IndexAllocation). x.list_id) (g.is_stamped) in
        let small : a.status_list_index < list.characteristics.length =
          subst (λ i. i < list.characteristics.length)
            (sym (ap (λ (x : IndexAllocation). x.status_list_index) (g.is_stamped))) (g.in_range) in
        subst (Writes lib storage signing deps contract (list.id) (a.status_list_index) true list t)
          (sym (
            set_credential_status_allocated q true t p a stored
            ∙ ap
                (λ id.
                  set_status lib storage signing deps id (nat (a.status_list_index)) true (t, p))
                place))
          (set_status-Writes lib storage signing deps contract (list.id) t p list inst
            (g.granted.lists.list (list.id) ∙ found) available laws works valid_t readable
            (a.status_list_index) true small (clear _ small))

    -- Over a storage that keeps its contract, a lawful bit list library and a signer that works:
    -- after a write of the other value in range, on a valid state with the list stored and readable
    -- and its instance available, the same call again reports no change and leaves storage, signer
    -- and clocks as the first call left them.
    pub set_status_twice :
        (s : storage.State) (o : Outside signing) (i : ℕ) (v : Bool)
        → contract.IsValid s
        → storage.get_status_list (list.id) s ≡ some list
        → IsReadable lib list
        → i < list.characteristics.length
        → read_status lib (list.encoded_list) i ≡ some (not v)
        → (stored : StatusListRecord) × (t : storage.State) × (p : Outside signing) × (set_status
              lib storage signing deps
              (list.id)
              (nat i)
              v
              (s, o)).1
            ≡ (t, p)
          × (set_status lib storage signing deps (list.id) (nat i) v (t, p)
              ≡ (ok (record { changed = false; list = stored; status_list_index = i }), (t, p)))
    set_status_twice s o i v valid found readable small held =
        let w =
          set_status-Writes lib storage signing deps contract (list.id) s o list inst found
            available laws works valid readable i v small held in
        (
          w.stored,
          w.state,
          w.rest,
          ap (λ (x : Result StatusChange × World signing storage). x.1) (w.returns),
          set_status_redundant lib storage signing deps contract (list.id) (w.state) (w.rest)
              (w.stored) inst (w.lists (list.id) ∙ rw (eq_refl (list.id)))
              (instance_for_same list (w.stored) (w.flipped.tenant_id)
                  (w.flipped.issuer_instance_id)
                ∙ available)
              (w.flipped.readable) i v
              (subst (λ (c : StatusListCharacteristics). i < c.length)
                (sym (w.flipped.characteristics)) small)
              (w.flipped.bits i small ∙ rw (beq_self i)),
        )
