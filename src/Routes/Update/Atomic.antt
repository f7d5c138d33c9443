-- ===== src/Routes/Update/Atomic.antt =====
-- `POST /credentials/status` of service/src/routes/credentials-status.ts changes storage only if it
-- succeeds.
use mathlib.Core.Path.{subst}
use vcalm_status_service.Common.{
  String, ◌≡◌, refl, Bool, ◌||◌, Option, none, some, is_some, contains, string_eq, Bool-cases,
  Option-cases, inl, inr,
}
use vcalm_status_service.Json.{Json, nat}
use vcalm_status_service.Errors.{Error, Result, err, Result-cases}
use vcalm_status_service.Storage.{AllocationQuery, StorageService}
use vcalm_status_service.Storage.Contract.{Contract}
use vcalm_status_service.Signing.{SigningService}
use vcalm_status_service.StatusLists.Bitstring.{BitstringLibrary}
use vcalm_status_service.StatusLists.Manager.{Deps}
use vcalm_status_service.StatusLists.Manager.Effects.{Outside}
use vcalm_status_service.StatusLists.Manager.Lists.{set_credential_status}
use vcalm_status_service.StatusLists.Manager.RoundTrip.{
  set_credential_status_unallocated, set_credential_status_allocated,
}
use vcalm_status_service.StatusLists.Manager.Failures.{set_status_atomic}
use vcalm_status_service.StatusLists.Manager.Atomic.{Atomic, then_pure, from_failures}
use vcalm_status_service.Domains.{Url}
use vcalm_status_service.Routes.Update.{
  Selector, UpdateCredentialStatusBody, entry_types, set_if_both, set_by_explicit_selector,
  change_status, updated, update_credential_status_handler,
}
use vcalm_status_service.Routes.Update.Isolation.{set_at_atomic}

module _ (decode_uri_component : String → Option String) (parse_url : String → Option Url)
    (public_base_url : String) (storage : StorageService) (contract : Contract storage)
    (lib : BitstringLibrary) (signing : SigningService) (deps : Deps) (s : storage.State)
    (o : Outside signing) where
  set_credential_status-Atomic :
      (q : AllocationQuery) (v : Bool)
      → Atomic storage signing s o (set_credential_status lib storage signing deps q v (s, o))
  set_credential_status-Atomic q v = elim (Option-cases (storage.get_allocation q s)) [
    | inl fresh ↦ rw (set_credential_status_unallocated lib storage signing deps q v s o fresh) refl
    | inr (a, held) ↦ rw (set_credential_status_allocated lib storage signing deps q v s o a held) (
        from_failures storage signing s o _ (
          set_status_atomic lib storage contract signing deps (a.list_id)
            (nat (a.status_list_index)) v s o))
  ]

  set_if_both-Atomic :
      (tenant_id : String) (selector : Selector) (v : Bool) (raw url : Option String)
      → Atomic storage signing s o (
          set_if_both decode_uri_component parse_url public_base_url storage lib signing deps
            tenant_id selector v raw url
            (s, o))
  set_if_both-Atomic tenant_id selector v none none = refl
  set_if_both-Atomic tenant_id selector v none (some url) = refl
  set_if_both-Atomic tenant_id selector v (some raw) none = refl
  set_if_both-Atomic tenant_id selector v (some raw) (some url) =
      from_failures storage signing s o _ (
        set_at_atomic decode_uri_component parse_url public_base_url storage lib signing deps
          tenant_id selector v raw url s o contract)

  change_status-Atomic :
      (tenant_id : String) (body : UpdateCredentialStatusBody)
      → Atomic storage signing s o (
          change_status decode_uri_component parse_url public_base_url storage lib signing deps
            tenant_id body
            (s, o))
  unfolding set_by_explicit_selector
  change_status-Atomic tenant_id body =
      elim (Bool-cases (
        is_some body.credential_status.status_list_index
        || is_some body.credential_status.status_list_credential)) [
          | inl explicit ↦ rw explicit (
              set_if_both-Atomic tenant_id (body.credential_status) (body.status)
                (body.credential_status.status_list_index)
                (body.credential_status.status_list_credential))
          | inr resolved ↦ rw resolved (set_credential_status-Atomic _ (body.status))
        ]

  pub handler-Atomic :
      (schema : Json → Result UpdateCredentialStatusBody) (tenant_id : String) (json : Json)
      → Atomic storage signing s o (
          update_credential_status_handler decode_uri_component parse_url public_base_url storage
            lib signing deps schema tenant_id json
            (s, o))
  unfolding update_credential_status_handler
  handler-Atomic schema tenant_id json = elim (Result-cases (schema json)) [
    | inr (e, refused) ↦ rw refused refl
    | inl (body, parsed) ↦ elim (Bool-cases (contains body.credential_status.type entry_types)) [
      | inr unknown ↦ rw (parsed, unknown) refl
      | inl known ↦
          rw (parsed, known)
            (then_pure storage signing s o
              (updated decode_uri_component parse_url public_base_url storage lib signing deps body)
              _ (change_status-Atomic tenant_id body))
    ]
  ]

  -- Over a storage that keeps its contract, a request to `POST /credentials/status` that ends in an
  -- error, whichever way it names the entry and wherever it fails, leaves storage as it was.
  pub update_credential_status_handler_atomic :
      (schema : Json → Result UpdateCredentialStatusBody) (tenant_id : String) (json : Json)
      (e : Error) (t : storage.State) (p : Outside signing)
      → update_credential_status_handler decode_uri_component parse_url public_base_url storage lib
          signing deps schema tenant_id json
          (s, o)
        ≡ (err e, (t, p))
      → t ≡ s
  update_credential_status_handler_atomic schema tenant_id json e t p failed =
      subst (Atomic storage signing s o) failed (handler-Atomic schema tenant_id json)
