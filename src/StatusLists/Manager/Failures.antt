-- ===== src/StatusLists/Manager/Failures.antt =====
-- Failed updates of service/src/status-lists/manager.ts: they leave storage as it was.
use vcalm_status_service.Common.{
  String, ◌≡◌, refl, sym, ap, ◌∙◌, Bool, Option, none, some, Option-cases, inl, inr,
}
use vcalm_status_service.Json.{Number}
use vcalm_status_service.Errors.{
  Error, Result, ok, err, Action, status_list_error, index_out_of_range,
}
use vcalm_status_service.Storage.{
  Date, StatusListRecord, StorageService, StatusListMaterialization, StatusListMutationResult,
}
use vcalm_status_service.Storage.Contract.{Contract}
use vcalm_status_service.Tenants.{IssuerInstance}
use vcalm_status_service.Signing.{SigningService}
use vcalm_status_service.StatusLists.Bitstring.{BitstringLibrary}
use vcalm_status_service.StatusLists.Manager.Effects.{Outside, World}
use vcalm_status_service.StatusLists.Manager.{
  Deps, StatusChange, index_in_range, apply_status, instance_for, reading,
}
use vcalm_status_service.StatusLists.Manager.Lists.{set_status}
use vcalm_status_service.StatusLists.Manager.SetStatus.{
  set_status_missing, set_status_unavailable, set_status_found, mutation,
}

-- An update that fails leaves the storage as it was, whatever `mutate` does.
module _ (storage : StorageService) (contract : Contract storage) (W T : Type 0)
    (clock : W → Date × W) (id : String)
    (mutate : StatusListRecord → Action W (StatusListMutationResult T)) (s : storage.State) (w : W)
    (e : Error) (t : storage.State) (w' : W)
    (failed : storage.update_status_list W T clock id mutate (s, w) ≡ (err e, (t, w'))) where
  ok_no_failure :
      (r : StatusListRecord) (m : Option StatusListMaterialization) (x : T) (v : W)
      → storage.get_status_list id s ≡ some r
      → mutate r w ≡ (ok (record { materialization = m; result = x }), v)
      → t ≡ s
  ok_no_failure r none x v found same =
      cc (contract.update_untouched W T clock id mutate s w r x v found same)
  ok_no_failure r (some m) x v found same =
      let (u, written, _, _, _) =
        contract.update_written W T clock id mutate s w r m x v found same in
      cc

  after_mutate :
      (r : StatusListRecord)
      → storage.get_status_list id s ≡ some r
      → (outcome : Result (StatusListMutationResult T) × W) → mutate r w ≡ outcome
      → t ≡ s
  after_mutate r found (ok m, v) same = ok_no_failure r (m.materialization) (m.result) v found same
  after_mutate r found (err e', v) same =
      ap (λ (p : Result T × (storage.State × W)). p.1.0)
        (sym failed ∙ contract.update_failed W T clock id mutate s w r e' v found same)

  pub update_atomic : t ≡ s
  update_atomic = elim (Option-cases (storage.get_status_list id s)) [
    | inl missing ↦
        ap (λ (p : Result T × (storage.State × W)). p.1.0)
          (sym failed ∙ contract.update_missing W T clock id mutate s w missing)
    | inr (r, found) ↦ after_mutate r found (mutate r w) refl
  ]

module _ (lib : BitstringLibrary) (storage : StorageService) (contract : Contract storage)
    (signing : SigningService) (deps : Deps) (id : String) (index : Number) (v : Bool)
    (s : storage.State) (o : Outside signing) where
  -- Over a storage that keeps its contract, a call of `set_status` that throws, whatever the reason
  -- (an unknown list, a missing instance, an index out of range, unreadable bits, a signer that
  -- fails), leaves the storage as it was.
  pub set_status_atomic :
      (e : Error) (t : storage.State) (o' : Outside signing)
      → set_status lib storage signing deps id index v (s, o) ≡ (err e, (t, o'))
      → t ≡ s
  set_status_atomic e t o' failed = elim (Option-cases (storage.get_status_list id s)) [
    | inl missing ↦
        ap (λ (p : Result StatusChange × World signing storage). p.1.0)
          (sym failed ∙ set_status_missing lib storage signing deps id index v s o missing)
    | inr (r, found) ↦ elim (Option-cases (instance_for deps r)) [
      | inl gone ↦
          ap (λ (p : Result StatusChange × World signing storage). p.1.0)
            (sym failed
              ∙ set_status_unavailable lib storage signing deps id index v s o r found gone)
      | inr (inst, available) ↦
          update_atomic storage contract (Outside signing) StatusChange (reading signing deps) id
            (mutation lib storage signing deps inst index v) s o e t o'
            (sym (set_status_found lib storage signing deps id index v s o r inst found available)
              ∙ failed)
    ]
  ]

  -- Over a storage that keeps its contract: for a stored list with an available instance, an index
  -- that is no integer from 0 up to the length is refused with its code, and neither storage nor
  -- the signer nor a clock is touched.
  pub set_status_out_of_range :
      (r : StatusListRecord) (inst : IssuerInstance)
      → storage.get_status_list id s ≡ some r
      → instance_for deps r ≡ some inst
      → index_in_range index (r.characteristics.length) ≡ none
      → set_status lib storage signing deps id index v (s, o)
        ≡ (err (status_list_error index_out_of_range), (s, o))
  unfolding apply_status
  set_status_out_of_range r inst found available outside =
      set_status_found lib storage signing deps id index v s o r inst found available
      ∙ contract.update_failed (Outside signing) StatusChange (reading signing deps) id
          (mutation lib storage signing deps inst index v) s o r
          (status_list_error index_out_of_range) o found (rw outside)
