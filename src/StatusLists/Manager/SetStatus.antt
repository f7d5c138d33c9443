-- ===== src/StatusLists/Manager/SetStatus.antt =====
-- `setStatus` of service/src/status-lists/manager.ts, over any storage that keeps its contract and
-- any signer.
use vcalm_status_service.Common.{
  ℕ, ◌<◌, String, ◌≡◌, ap, ◌∙◌, Bool, true, false, not, none, some, ◌==◌, string_eq, nat_eq,
  if◌then◌else◌,
}
use vcalm_status_service.Json.{nat, Number}
use vcalm_status_service.Errors.{
  Result, ok, err, Action, status_list_error, StatusListErrorCode, issuer_instance_unavailable,
}
use vcalm_status_service.Storage.{
  StatusListRecord, StorageService, StatusListMutationResult, materialized,
}
use vcalm_status_service.Storage.Contract.{Contract, SameAllocations}
use vcalm_status_service.Tenants.{IssuerInstance}
use vcalm_status_service.Signing.{SigningService, Signs}
use vcalm_status_service.StatusLists.Bitstring.{BitstringLibrary, BitstringLaws, read_status}
use vcalm_status_service.StatusLists.Manager.Effects.{Outside, World}
use vcalm_status_service.StatusLists.Manager.{
  Deps, StatusChange, apply_status, instance_for, reading,
}
use vcalm_status_service.StatusLists.Manager.Updates.{
  IsReadable, IsFlipped, same_status_self, apply_status_held, apply_status_flips,
}
use vcalm_status_service.StatusLists.Manager.Lists.{set_status}

module _ (lib : BitstringLibrary) (storage : StorageService) (signing : SigningService)
    (deps : Deps) where
  pub set_status_missing :
      (id : String) (index : Number) (v : Bool) (s : storage.State) (o : Outside signing)
      → storage.get_status_list id s ≡ none
      → set_status lib storage signing deps id index v (s, o)
        ≡ (err (status_list_error StatusListErrorCode.list_not_found), (s, o))
  unfolding set_status
  set_status_missing id index v s o h = rw h

  pub set_status_unavailable :
      (id : String) (index : Number) (v : Bool) (s : storage.State) (o : Outside signing)
      (r : StatusListRecord)
      → storage.get_status_list id s ≡ some r
      → instance_for deps r ≡ none
      → set_status lib storage signing deps id index v (s, o)
        ≡ (err (status_list_error issuer_instance_unavailable), (s, o))
  unfolding set_status
  set_status_unavailable id index v s o r h k = rw (h, k)

  -- What runs inside the write.
  abbrev pub mutation :
      IssuerInstance
      → Number
      → Bool
      → StatusListRecord
      → Action (Outside signing) (StatusListMutationResult StatusChange)
  mutation inst index v current = apply_status lib signing deps current inst index v

  pub set_status_found :
      (id : String) (index : Number) (v : Bool) (s : storage.State) (o : Outside signing)
      (r : StatusListRecord) (inst : IssuerInstance)
      → storage.get_status_list id s ≡ some r
      → instance_for deps r ≡ some inst
      → set_status lib storage signing deps id index v (s, o)
        ≡ storage.update_status_list
            (Outside signing)
            StatusChange
            (reading signing deps)
            id
            (mutation inst index v)
            (s, o)
  unfolding set_status
  set_status_found id index v s o r inst h k = rw (h, k)

  module _ (contract : Contract storage) where
    -- The whole of a call that flips a bit: what it returns, and what is stored after it.
    pub record Writes (id : String) (i : ℕ) (v : Bool) (r : StatusListRecord) (s : storage.State)
        (outcome : Result StatusChange × World signing storage) : Type 0 where
      pub change : StatusChange
      pub stored : StatusListRecord
      pub state : storage.State
      pub rest : Outside signing
      pub returns : outcome ≡ (ok change, (state, rest))
      pub changed : change.changed ≡ true
      pub index : change.status_list_index ≡ i
      pub reported : change.list ≡ record stored { updated_at = change.list.updated_at }
      pub flipped : IsFlipped lib deps i v r stored
      pub lists :
          (j : String)
          → storage.get_status_list j state
            ≡ (if id == j then some stored else storage.get_status_list j s)
      pub allocations : SameAllocations storage s state
      pub valid : contract.IsValid state

    module _ (id : String) (s : storage.State) (o : Outside signing) (r : StatusListRecord)
        (inst : IssuerInstance) (found : storage.get_status_list id s ≡ some r)
        (available : instance_for deps r ≡ some inst) where
      -- Over a storage that keeps its contract, a bit list library that keeps its laws and a signer
      -- that works for the list's instance: if the list is stored and readable, its instance is
      -- available, the index is within its length and the entry holds the other value, then
      -- `set_status` succeeds; the list is stored one version later with that one entry changed,
      -- every other entry, its URL and all that was fixed at creation as before; every other list
      -- and every allocation is as before; the answer reports the change, and the state stays
      -- valid.
      pub set_status-Writes :
          (laws : BitstringLaws lib)
          → Signs signing inst
          → contract.IsValid s
          → IsReadable lib r
          → (i : ℕ) (v : Bool) → i < r.characteristics.length
          → read_status lib (r.encoded_list) i ≡ some (not v)
          → Writes id i v r s (set_status lib storage signing deps id (nat i) v (s, o))
      set_status-Writes laws works valid readable i v h held =
          let (m, x, o', e, flipped, same) =
            apply_status_flips lib laws signing deps inst works r i v o readable h held in
          let (t, updated, lists, allocations, keeps) =
            contract.update_written (Outside signing) StatusChange (reading signing deps) id
              (mutation inst (nat i) v) s o r m x o' found e in
          record {
            change = x;
            stored = materialized (reading signing deps o').0 m r;
            state = t;
            rest = (reading signing deps o').1;
            returns = set_status_found id (nat i) v s o r inst found available ∙ updated;
            changed = ap (λ (c : StatusChange). c.changed) same;
            index = ap (λ (c : StatusChange). c.status_list_index) same;
            reported = ap (λ (c : StatusChange). c.list) same;
            flipped = flipped (reading signing deps o').0;
            lists = lists;
            allocations = allocations;
            valid = keeps valid;
          }

      -- Over a storage that keeps its contract: if the stored list is readable, its instance is
      -- available, the index is within its length and the entry holds the value already,
      -- `set_status` reports no change and changes nothing at all: no storage, no signature, no
      -- reading of a clock.
      pub set_status_redundant :
          IsReadable lib r
          → (i : ℕ) (v : Bool) → i < r.characteristics.length
          → read_status lib (r.encoded_list) i ≡ some v
          → set_status lib storage signing deps id (nat i) v (s, o)
            ≡ (ok (record { changed = false; list = r; status_list_index = i }), (s, o))
      set_status_redundant readable i v h held =
          set_status_found id (nat i) v s o r inst found available
          ∙ contract.update_untouched (Outside signing) StatusChange (reading signing deps) id
              (mutation inst (nat i) v) s o r
              (record { changed = false; list = r; status_list_index = i }) o found
              (apply_status_held lib signing deps inst r i v v o readable h held
                ∙ rw (same_status_self v))
