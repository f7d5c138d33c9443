-- ===== src/StatusLists/Manager/Atomic.antt =====
-- Actions that leave storage as it was if they throw, and `createList` as one of them.
use vcalm_status_service.Common.{◌+◌, ◌≡◌, refl, Option-cases, inl, inr}
use vcalm_status_service.Errors.{Error, Result, ok, err, pure, ◌>>=◌, Result-cases}
use vcalm_status_service.Storage.{
  Date, StatusListCharacteristics, StatusListMaterialization, NewStatusListRecord, StatusListRecord,
  StorageService, first_version,
}
use vcalm_status_service.Storage.Contract.{Contract}
use vcalm_status_service.Signing.{SigningService}
use vcalm_status_service.StatusLists.Bitstring.{BitstringLibrary}
use vcalm_status_service.StatusLists.Manager.{
  Deps, CreateStatusListInput, characteristics_of, materialize,
}
use vcalm_status_service.StatusLists.Manager.Effects.{Outside, World, in_storage}
use vcalm_status_service.StatusLists.Manager.Lists.{chosen_id, create_list}
use vcalm_status_service.StatusLists.Manager.Creates.{
  chosen_id_lem, new_id, new_url, new_record, create_list_refused,
}

module _ (storage : StorageService) (signing : SigningService) (s : storage.State)
    (o : Outside signing) where
  -- An outcome that is no success leaves the storage as it was.
  abbrev pub Atomic : {A : Type 0} → Result A × World signing storage → Type 0
  Atomic (ok a, w) = Unit
  Atomic (err e, (t, p)) = t ≡ s

  pub then_pure :
      {A B : Type 0} (f : A → B) (x : Result A × World signing storage)
      → Atomic x
      → Atomic (((λ (w : World signing storage). x) >>= λ a. pure (f a)) (s, o))
  then_pure f (ok a, w) h = tt
  then_pure f (err e, (t, p)) h = h

  -- A call that leaves the storage as it was whenever it throws.
  pub from_failures :
      {A : Type 0} (x : Result A × World signing storage)
      → ((e : Error) (t : storage.State) (p : Outside signing) → x ≡ (err e, (t, p)) → t ≡ s)
      → Atomic x
  from_failures (ok a, w) h = tt
  from_failures (err e, (t, p)) h = h e t p refl

module _ (lib : BitstringLibrary) (storage : StorageService) (contract : Contract storage)
    (signing : SigningService) (deps : Deps) (s : storage.State) where
  stored-Atomic :
      (now : Date) (r : NewStatusListRecord) (o : Outside signing)
      → Atomic storage signing s o
          (in_storage signing storage (storage.create_status_list now r) (s, o))
  stored-Atomic now r o = elim (Option-cases (storage.get_status_list (r.id) s)) [
    | inl fresh ↦ of_ok _ (contract.create_new now r s fresh)
    | inr (x, known) ↦ rw (contract.create_duplicate now r s x known) refl
  ]
    where
      of_ok :
          (x : Result StatusListRecord × storage.State)
          → x.0 ≡ ok (first_version now r)
          → Atomic storage signing s o (in_storage signing storage (λ u. x) (s, o))
      of_ok (ok a, t) h = tt
      of_ok (err e, t) h = cc

  after_signing :
      (input : CreateStatusListInput) (c : StatusListCharacteristics) (o o1 : Outside signing)
      → characteristics_of (input.characteristics) ≡ ok c
      → chosen_id lib storage signing deps (input.id) (s, o)
        ≡ (ok (new_id lib storage signing deps input o), (s, o1))
      → (signed : Result StatusListMaterialization × Outside signing)
      → materialize lib signing deps
          (new_url lib storage signing deps input o)
          (input.instance_of)
          (input.status_purpose)
          (lib.create_list c.length)
          (c.ttl)
          o1
        ≡ signed
      → Atomic storage signing s o (create_list lib storage signing deps input (s, o))
  unfolding create_list
  after_signing input c o o1 accepted chosen (err e, o2) same = rw (accepted, chosen, same) refl
  after_signing input c o o1 accepted chosen (ok m, o2) same =
      rw (accepted, chosen, same)
        (stored-Atomic (deps.system_clock o2.draws)
          (new_record lib storage signing deps input c (new_id lib storage signing deps input o) m)
          (record o2 { draws = o2.draws + 1 }))

  -- Over a storage that keeps its contract, a call of `createList` that throws leaves storage as it was.
  pub create_list-Atomic :
      (input : CreateStatusListInput) (o : Outside signing)
      → Atomic storage signing s o (create_list lib storage signing deps input (s, o))
  create_list-Atomic input o = elim (Result-cases (characteristics_of input.characteristics)) [
    | inr (e, refused) ↦
        rw (create_list_refused lib storage signing deps input e (s, o) refused) refl
    | inl (c, accepted) ↦
        let (o1, chosen) = chosen_id_lem lib storage signing deps (input.id) s o in
        after_signing input c o o1 accepted chosen _ refl
  ]
