-- ===== src/Routes/Create/Atomic.antt =====
-- `POST /status-lists` of service/src/routes/status-lists.ts changes storage only if it succeeds.
use vcalm_status_service.Common.{String, refl, Option, inl, inr}
use vcalm_status_service.Json.{Json}
use vcalm_status_service.Errors.{Result, Result-cases}
use vcalm_status_service.Storage.{StorageService}
use vcalm_status_service.Storage.Contract.{Contract}
use vcalm_status_service.Signing.{SigningService}
use vcalm_status_service.Tenants.{TenantRecord}
use vcalm_status_service.StatusLists.Bitstring.{BitstringLibrary}
use vcalm_status_service.StatusLists.Manager.{Deps}
use vcalm_status_service.StatusLists.Manager.Effects.{Outside}
use vcalm_status_service.StatusLists.Manager.Atomic.{Atomic, then_pure, create_list-Atomic}
use vcalm_status_service.Domains.{Url}
use vcalm_status_service.Routes.Create.{
  CreateBody, wanted_instance, issuer_instance_for, chosen_address, created,
  create_status_list_handler,
}

module _ (decode_uri_component : String → Option String) (parse_url : String → Option Url)
    (storage : StorageService) (contract : Contract storage) (lib : BitstringLibrary)
    (signing : SigningService) (deps : Deps) (s : storage.State) (o : Outside signing) where
  -- Over a storage that keeps its contract, a request to `POST /status-lists` that ends in an error
  -- leaves storage as it was.
  pub create_status_list_handler-Atomic :
      (schema : Json → Result CreateBody) (tenant : TenantRecord) (json : Json)
      → Atomic storage signing s o (
          create_status_list_handler decode_uri_component parse_url lib storage signing deps schema
            tenant json
            (s, o))
  unfolding create_status_list_handler
  create_status_list_handler-Atomic schema tenant json = elim (Result-cases (schema json)) [
    | inr (e, refused) ↦ rw refused refl
    | inl (body, parsed) ↦
        elim (Result-cases (issuer_instance_for tenant (wanted_instance body.options))) [
          | inr (e, unknown) ↦ rw (parsed, unknown) refl
          | inl (inst, known) ↦
              elim (Result-cases (
                chosen_address decode_uri_component parse_url tenant deps.public_base_url
                  body.id)) [
                    | inr (e, foreign) ↦ rw (parsed, known, foreign) refl
                    | inl (address, own) ↦
                        rw (parsed, known, own)
                          (then_pure storage signing s o
                            (created decode_uri_component parse_url lib storage signing deps) _
                            (create_list-Atomic lib storage contract signing deps s _ o))
                  ]
        ]
  ]
