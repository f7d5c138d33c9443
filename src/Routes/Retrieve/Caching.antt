-- ===== src/Routes/Retrieve/Caching.antt =====
-- What a reader of service/src/routes/status-lists.ts sees: under which hosts, and after an update.
use text.Mathlib.TextLemmas.{append_cancel_left, append_cancel_right}
use vcalm_status_service.Common.{
  ℕ, String, ◌≡◌, ◌≢◌, ◌∙◌, Bool, true, false, Option, none, some, arith, string_eq, beq_ne,
  eq_refl,
}
use vcalm_status_service.Errors.{Result, ok}
use vcalm_status_service.Storage.{StatusListRecord, StorageService}
use vcalm_status_service.Storage.Contract.{Contract}
use vcalm_status_service.Signing.{SigningService}
use vcalm_status_service.Tenants.{TenantRegistry}
use vcalm_status_service.StatusLists.Bitstring.{BitstringLibrary}
use vcalm_status_service.StatusLists.Manager.{Deps, StatusChange}
use vcalm_status_service.StatusLists.Manager.Effects.{World}
use vcalm_status_service.StatusLists.Manager.SetStatus.{Writes}
use vcalm_status_service.Domains.{Url}
use vcalm_status_service.Routes.Retrieve.{
  RetrieveRequest, content, not_modified, etag_for, cache_control_for, content_type_for, respond,
  is_served, get_status_list_handler,
}
use vcalm_status_service.Common.Decimal.{decimal_injective}

-- The ETags of two records differ if their versions do.
pub etag_for_injective : (r x : StatusListRecord) → etag_for r ≡ etag_for x → r.version ≡ x.version
etag_for_injective r x h =
    decimal_injective (r.version) (x.version)
      (append_cancel_right _ _ "\"" (append_cancel_left "\"" _ _ h))

module _ (parse_url : String → Option Url) (storage : StorageService) (tenants : TenantRegistry)
    (public_base_url : String) (c : RetrieveRequest) where
  -- A list that is stored but not served under the request's host is answered exactly as one that
  -- does not exist.
  pub get_status_list_handler_hidden :
      (r : StatusListRecord) (s t : storage.State)
      → storage.get_status_list (c.id) s ≡ some r
      → storage.get_status_list (c.id) t ≡ none
      → is_served parse_url storage tenants public_base_url c r ≡ false
      → get_status_list_handler parse_url storage tenants public_base_url c s
        ≡ get_status_list_handler parse_url storage tenants public_base_url c t
  unfolding get_status_list_handler
  get_status_list_handler_hidden r s t found missing hidden = rw (found, missing, hidden)

  get_status_list_handler_served :
      (r : StatusListRecord) (s : storage.State)
      → storage.get_status_list (c.id) s ≡ some r
      → is_served parse_url storage tenants public_base_url c r ≡ true
      → get_status_list_handler parse_url storage tenants public_base_url c s ≡ ok (respond c r)
  unfolding get_status_list_handler
  get_status_list_handler_served r s found served = rw (found, served)

  -- Where a stored list is served under the request's host, a reader that holds the ETag of a
  -- record with the same version gets 304.
  pub get_status_list_handler_unchanged :
      (r held : StatusListRecord) (s : storage.State)
      → storage.get_status_list (c.id) s ≡ some r
      → is_served parse_url storage tenants public_base_url c r ≡ true
      → c.if_none_match ≡ some (etag_for held)
      → held.version ≡ r.version
      → get_status_list_handler parse_url storage tenants public_base_url c s
        ≡ ok (not_modified (etag_for r) (cache_control_for r))
  get_status_list_handler_unchanged r held s found served sent same =
      get_status_list_handler_served r s found served ∙ rw (sent, same, eq_refl (etag_for r))

  module _ (lib : BitstringLibrary) (signing : SigningService) (deps : Deps)
      (contract : Contract storage) where
    -- After a write of a status, where the list is served under the request's host, a reader that
    -- holds the ETag of the version before gets the new credential in full and never 304.
    pub get_status_list_handler_after_write :
        (i : ℕ) (v : Bool) (r : StatusListRecord) (s : storage.State)
        (outcome : Result StatusChange × World signing storage)
        → (w : Writes lib storage signing deps contract (c.id) i v r s outcome)
        → is_served parse_url storage tenants public_base_url c (w.stored) ≡ true
        → c.if_none_match ≡ some (etag_for r)
        → get_status_list_handler parse_url storage tenants public_base_url c (w.state)
          ≡ ok (
              content
                (etag_for (w.stored))
                (cache_control_for (w.stored))
                (content_type_for (c.accept))
                (w.stored.signed_credential))
    get_status_list_handler_after_write i v r s outcome w served sent =
        let changed : etag_for r ≢ etag_for (w.stored) =
          λ e. omega (arith, etag_for_injective r (w.stored) e, w.flipped.version) in
        get_status_list_handler_served (w.stored) (w.state) (w.lists (c.id) ∙ rw (eq_refl (c.id)))
          served
        ∙ rw (sent, beq_ne changed)
