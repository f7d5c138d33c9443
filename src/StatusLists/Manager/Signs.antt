-- ===== src/StatusLists/Manager/Signs.antt =====
-- `#materialize` of service/src/status-lists/manager.ts: with a signer that works it publishes the
-- bits it was given, under the URL it was given.
use vcalm_status_service.Common.{ℕ, ◌+◌, String, ◌≡◌, refl, Option, some}
use vcalm_status_service.Errors.{ok}
use vcalm_status_service.Storage.{StatusPurpose, StatusListMaterialization}
use vcalm_status_service.Tenants.{IssuerInstance}
use vcalm_status_service.VcSigner.{UnsignedCredential}
use vcalm_status_service.Signing.{SigningService, Signs}
use vcalm_status_service.StatusLists.Bitstring.{BitstringLibrary}
use vcalm_status_service.StatusLists.Credential.{build_status_list_credential}
use vcalm_status_service.StatusLists.Manager.Effects.{Outside}
use vcalm_status_service.StatusLists.Manager.{Deps, materialize}

module _ (lib : BitstringLibrary) (signing : SigningService) (deps : Deps) where
  -- A materialization of bits under a URL.
  pub record Publishes (url : String) (purpose : StatusPurpose) (list : lib.BitstringStatusList)
      (m : StatusListMaterialization) : Type 0 where
    pub encoded : m.encoded_list ≡ (lib.create_credential url list purpose).subject.encoded_list
    pub id : m.signed_credential.unsigned.id ≡ some (lib.create_credential url list purpose).id

  pub materialize-Publishes :
      (inst : IssuerInstance)
      → Signs signing inst
      → (url : String) (purpose : StatusPurpose) (list : lib.BitstringStatusList) (ttl : Option ℕ)
        (o : Outside signing)
      → (m : StatusListMaterialization) × (o' : Outside signing) × (materialize lib signing deps url
            inst purpose list ttl o
          ≡ (ok m, o'))
        × Publishes url purpose list m
  unfolding materialize build_status_list_credential
  materialize-Publishes inst works url purpose list ttl o =
      let (t, known) = works.knows o.signer in
      let u : UnsignedCredential =
        (build_status_list_credential lib (record {
          url = url;
          issuer = works.did;
          status_purpose = purpose;
          list = list;
          ttl = ttl;
          valid_from = deps.now o.draws;
        })).unsigned in
      let (v, t', signed, same) = works.signs u t refl in
      (
        record {
          encoded_list = (lib.create_credential url list purpose).subject.encoded_list;
          signed_credential = v;
        },
        record { signer = t'; draws = o.draws + 1 },
        rw (known, signed) refl,
        record { encoded = refl; id = same },
      )
