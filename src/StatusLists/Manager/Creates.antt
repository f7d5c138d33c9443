-- ===== src/StatusLists/Manager/Creates.antt =====
-- `createList` of service/src/status-lists/manager.ts, over any storage that keeps its contract.
use vcalm_status_service.Common.{
  ℕ, ◌<◌, ◌≤◌, ◌+◌, String, ◌≡◌, refl, ◌∙◌, false, Option, none, some, arith, ◌==◌, string_eq,
  if◌then◌else◌, get_or,
}
use vcalm_status_service.Errors.{Error, Result, ok, err, storage_error, duplicate_list}
use vcalm_status_service.Storage.{
  Date, minimum_list_length, StatusListCharacteristics, NewStatusListRecord, StatusListRecord,
  StatusListMaterialization, StorageService, first_version,
}
use vcalm_status_service.Storage.Contract.{Contract, SameAllocations}
use vcalm_status_service.Signing.{SigningService, Signs}
use vcalm_status_service.StatusLists.Bitstring.{BitstringLibrary, BitstringLaws, read_status}
use vcalm_status_service.StatusLists.Credential.{status_list_url}
use vcalm_status_service.StatusLists.Manager.Effects.{Outside, World}
use vcalm_status_service.StatusLists.Manager.{
  Deps, RequestedCharacteristics, CreateStatusListInput, characteristics_of, canonical_url,
}
use vcalm_status_service.StatusLists.Manager.Signs.{Publishes, materialize-Publishes}
use vcalm_status_service.StatusLists.Manager.Updates.{IsReadable}
use vcalm_status_service.StatusLists.Manager.Lists.{chosen_id, create_list}

-- Characteristics that are accepted have at least 131072 entries of one bit each and no status
-- messages.
pub characteristics_bounds :
    (requested : Option RequestedCharacteristics) (c : StatusListCharacteristics)
    → characteristics_of requested ≡ ok c
    → (minimum_list_length ≤ c.length) × (c.status_size ≡ 1) × (c.status_message ≡ none)
unfolding characteristics_of
characteristics_bounds requested c h = ground arith

module _ (lib : BitstringLibrary) (storage : StorageService) (signing : SigningService)
    (deps : Deps) where
  -- A request that `#characteristics` refuses changes nothing, and nothing is signed.
  pub create_list_refused :
      (input : CreateStatusListInput) (e : Error) (w : World signing storage)
      → characteristics_of (input.characteristics) ≡ err e
      → create_list lib storage signing deps input w ≡ (err e, w)
  unfolding create_list
  create_list_refused input e w h = rw h

  pub chosen_id_lem :
      (given : Option String) (s : storage.State) (o : Outside signing)
      → (o' : Outside signing) × (chosen_id lib storage signing deps given (s, o)
          ≡ (ok (get_or given (deps.generate_id o.draws)), (s, o')))
  chosen_id_lem none s o = (_, refl)
  chosen_id_lem (some id) s o = (o, refl)

  -- The id and the URL of the new list.
  abbrev pub new_id : CreateStatusListInput → Outside signing → String
  new_id input o = get_or (input.id) (deps.generate_id o.draws)

  abbrev pub new_url : CreateStatusListInput → Outside signing → String
  new_url input o = get_or (input.url) (status_list_url deps.public_base_url (new_id input o))

  abbrev pub new_record :
      CreateStatusListInput
      → StatusListCharacteristics
      → String
      → StatusListMaterialization
      → NewStatusListRecord
  new_record input c id m = record {
    id = id;
    tenant_id = input.tenant_id;
    issuer_instance_id = input.instance_of.id;
    status_purpose = input.status_purpose;
    characteristics = c;
    encoded_list = m.encoded_list;
    signed_credential = m.signed_credential;
  }

  -- With acceptable characteristics and a working signer, creation comes down to the storage's answer.
  create_list_stores :
      (input : CreateStatusListInput) (c : StatusListCharacteristics) (s : storage.State)
      (o : Outside signing)
      → Signs signing (input.instance_of)
      → characteristics_of (input.characteristics) ≡ ok c
      → (m : StatusListMaterialization) × (o' : Outside signing) × (create_list lib storage signing
            deps input
            (s, o)
          ≡ (let (r, t) =
                storage.create_status_list
                  (deps.system_clock o'.draws)
                  (new_record input c (new_id input o) m)
                  s in
              (r, (t, record o' { draws = o'.draws + 1 }))))
        × Publishes lib signing deps
            (new_url input o)
            (input.status_purpose)
            (lib.create_list c.length)
            m
  unfolding create_list
  create_list_stores input c s o works h =
      let (o1, chosen) = chosen_id_lem (input.id) s o in
      let (m, o', e, p) =
        materialize-Publishes lib signing deps (input.instance_of) works (new_url input o)
          (input.status_purpose) (lib.create_list c.length) (c.ttl) o1 in
      (m, o', rw (h, chosen, e), p)

  module _ (contract : Contract storage) where
    -- The whole of a successful creation.
    pub record Creates (input : CreateStatusListInput) (c : StatusListCharacteristics)
        (id url : String) (s : storage.State)
        (outcome : Result StatusListRecord × World signing storage) : Type 0 where
      pub stored : StatusListRecord
      pub state : storage.State
      pub rest : Outside signing
      pub returns : outcome ≡ (ok stored, (state, rest))
      pub id_is : stored.id ≡ id
      pub tenant : stored.tenant_id ≡ input.tenant_id
      pub instance_is : stored.issuer_instance_id ≡ input.instance_of.id
      pub purpose : stored.status_purpose ≡ input.status_purpose
      pub characteristics : stored.characteristics ≡ c
      pub version : stored.version ≡ 1
      pub url_is : canonical_url deps stored ≡ url
      pub readable : IsReadable lib stored
      pub clear : (i : ℕ) → i < c.length → read_status lib (stored.encoded_list) i ≡ some false
      pub lists :
          (j : String)
          → storage.get_status_list j state
            ≡ (if id == j then some stored else storage.get_status_list j s)
      pub allocations : SameAllocations storage s state
      pub valid : contract.IsValid state

    module _ (laws : BitstringLaws lib) (input : CreateStatusListInput)
        (works : Signs signing (input.instance_of)) (c : StatusListCharacteristics)
        (accepted : characteristics_of (input.characteristics) ≡ ok c) (s : storage.State)
        (o : Outside signing) where
      published_clear :
          (url : String) (m : StatusListMaterialization)
          → Publishes lib signing deps url (input.status_purpose) (lib.create_list c.length) m
          → (i : ℕ) → i < c.length
          → read_status lib (m.encoded_list) i ≡ some false
      unfolding read_status
      published_clear url m p i h =
          let (b, decodes, _, agree) =
            laws.decode_credential url (lib.create_list c.length) (input.status_purpose) in
          rw (p.encoded, decodes)
            (agree i (omega (arith, laws.size-create c.length)) ∙ laws.get-create (c.length) i h)

      published-IsReadable :
          (url id : String) (now : Date) (m : StatusListMaterialization)
          → Publishes lib signing deps url (input.status_purpose) (lib.create_list c.length) m
          → IsReadable lib (first_version now (new_record input c id m))
      published-IsReadable url id now m p =
          let (b, decodes, padded, _) =
            laws.decode_credential url (lib.create_list c.length) (input.status_purpose) in
          record {
            bits = b;
            decodes = rw (p.encoded) decodes;
            long_enough = omega (arith, laws.size-create c.length);
          }

      -- Over a storage that keeps its contract, a lawful bit list library and a signer that works
      -- for the instance: with characteristics that are accepted, a valid state and an id that is
      -- free, `create_list` succeeds; the list is stored and returned at version 1, under its id
      -- and URL, for its tenant, instance and purpose, readable and with every entry clear; no
      -- other list and no allocation changes, and the state stays valid.
      pub create_list-Creates :
          contract.IsValid s
          → storage.get_status_list (new_id input o) s ≡ none
          → Creates input c
              (new_id input o)
              (new_url input o)
              s
              (create_list lib storage signing deps input (s, o))
      create_list-Creates valid free =
          let (m, o', e, p) = create_list_stores input c s o works accepted in
          let r : NewStatusListRecord = new_record input c (new_id input o) m in
          let now : Date = deps.system_clock o'.draws in
          record {
            stored = first_version now r;
            state = (storage.create_status_list now r s).1;
            rest = record o' { draws = o'.draws + 1 };
            returns = e ∙ rw (contract.create_new now r s free);
            id_is = refl;
            tenant = refl;
            instance_is = refl;
            purpose = refl;
            characteristics = refl;
            version = refl;
            url_is = rw (
              p.id,
              laws.credential_id (new_url input o) (lib.create_list c.length)
                  (input.status_purpose),
            );
            readable = published-IsReadable (new_url input o) (new_id input o) now m p;
            clear = published_clear (new_url input o) m p;
            lists = λ j. contract.get-create now r s j free;
            allocations = contract.create-SameAllocations now r s;
            valid = contract.create-IsValid now r s valid;
          }

      -- Over a storage that keeps its contract, a lawful bit list library and a signer that works:
      -- with characteristics that are accepted, `create_list` under an id that is taken throws the
      -- duplicate, and storage is as it was.
      pub create_list_duplicate :
          (x : StatusListRecord)
          → storage.get_status_list (new_id input o) s ≡ some x
          → (o' : Outside signing) × (create_list lib storage signing deps input (s, o)
              ≡ (err (storage_error duplicate_list), (s, o')))
      create_list_duplicate x taken =
          let (m, o', e, _) = create_list_stores input c s o works accepted in
          (
            record o' { draws = o'.draws + 1 },
            e
                ∙ rw (
                    contract.create_duplicate (deps.system_clock o'.draws)
                      (new_record input c (new_id input o) m) s x taken),
          )
