-- ===== src/Routes/Create/Address.antt =====
-- Where a list of service/src/routes/status-lists.ts is created, and that it is found there.
use vcalm_status_service.Common.{
  String, ◌≡◌, ap, ◌∙◌, true, false, Option, none, some, string_eq, eq_iff, eq_refl,
}
use vcalm_status_service.Json.{Json}
use vcalm_status_service.Errors.{Result, ok, err, problem_error}
use vcalm_status_service.Storage.{StatusListCharacteristics, StatusListRecord, StorageService}
use vcalm_status_service.Storage.Contract.{Contract}
use vcalm_status_service.Signing.{SigningService, Signs}
use vcalm_status_service.Tenants.{IssuerInstance, TenantRecord}
use vcalm_status_service.StatusLists.Bitstring.{BitstringLibrary, BitstringLaws}
use vcalm_status_service.StatusLists.Manager.{Deps, CreateStatusListInput, characteristics_of}
use vcalm_status_service.StatusLists.Manager.Effects.{Outside}
use vcalm_status_service.StatusLists.Manager.Creates.{Creates, create_list-Creates}
use vcalm_status_service.Domains.{Url, is_authorized_list_url}
use vcalm_status_service.Routes.{canonical_url_of}
use vcalm_status_service.Routes.Update.{
  list_segment, answers_to, list_at, list_in, list_of, list_from_url,
}
use vcalm_status_service.Routes.Create.{
  CreateBody, CreateResponse, issuer_instance_for, wanted_instance, requested, decoded, slug_in,
  slug_of, slug_from_list_url, chosen_address, create_status_list_handler,
}

module _ (decode_uri_component : String → Option String) (parse_url : String → Option Url)
    (public_base_url : String) (storage : StorageService) where
  -- Where the slug of a URL is an id, the lookup by URL is the lookup of that id.
  list_from_url-slug :
      (url id : String) (s : storage.State)
      → slug_from_list_url decode_uri_component parse_url url ≡ ok (some id)
      → list_from_url decode_uri_component parse_url public_base_url storage url s
        ≡ answers_to decode_uri_component parse_url public_base_url storage url
            (storage.get_status_list id s)
  unfolding list_from_url slug_from_list_url
  list_from_url-slug url id s = of_url (parse_url url)
    where
      found : Result StatusListRecord
      found =
          answers_to decode_uri_component parse_url public_base_url storage url
            (storage.get_status_list id s)

      of_id :
          (x : Option String)
          → decoded decode_uri_component parse_url x ≡ ok (some id)
          → list_at decode_uri_component parse_url public_base_url storage url x s ≡ found
      of_id none e = cc
      of_id (some x) e =
          let same : x ≡ id = cc e in
          ap
            (λ y.
              answers_to decode_uri_component parse_url public_base_url storage url
                (storage.get_status_list y s))
            same

      of_segment :
          (segment : Option String)
          → slug_in decode_uri_component parse_url segment ≡ ok (some id)
          → list_in decode_uri_component parse_url public_base_url storage url segment s ≡ found
      of_segment none e = cc
      of_segment (some segment) e = of_id (decode_uri_component segment) e

      of_url :
          (u : Option Url)
          → slug_of decode_uri_component parse_url u ≡ ok (some id)
          → list_of decode_uri_component parse_url public_base_url storage url u s ≡ found
      of_url none e = cc
      of_url (some u) e = of_segment (list_segment (u.pathname)) e

module _ (decode_uri_component : String → Option String) (parse_url : String → Option Url)
    (lib : BitstringLibrary) (storage : StorageService) (signing : SigningService) (deps : Deps)
    (schema : Json → Result CreateBody) (tenant : TenantRecord) (json : Json) (body : CreateBody)
    (parsed : schema json ≡ ok body) (inst : IssuerInstance)
    (instance_found : issuer_instance_for tenant (wanted_instance (body.options)) ≡ ok inst)
    (url : String) (chosen : body.id ≡ some url) (s : storage.State) (o : Outside signing) where
  -- A URL under a host that the tenant does not hold is refused, and nothing changes.
  pub create_status_list_handler_foreign :
      is_authorized_list_url parse_url tenant url deps.public_base_url ≡ false
      → create_status_list_handler decode_uri_component parse_url lib storage signing deps schema
          tenant json
          (s, o)
        ≡ (err (problem_error 400), (s, o))
  unfolding create_status_list_handler chosen_address
  create_status_list_handler_foreign foreign = rw (parsed, instance_found, chosen, foreign)

  module _ (contract : Contract storage) (laws : BitstringLaws lib) (works : Signs signing inst)
      (c : StatusListCharacteristics)
      (accepted : characteristics_of (requested (body.options)) ≡ ok c) (id : String)
      (authorized : is_authorized_list_url parse_url tenant url deps.public_base_url ≡ true)
      (slug : slug_from_list_url decode_uri_component parse_url url ≡ ok (some id))
      (valid : contract.IsValid s) (free : storage.get_status_list id s ≡ none) where
    abbrev input : CreateStatusListInput
    input = record {
      tenant_id = tenant.tenant_id;
      instance_of = inst;
      status_purpose = body.status_purpose;
      id = some id;
      url = some url;
      characteristics = requested body.options;
    }

    -- Over a storage that keeps its contract, a lawful bit list library and a signer that works for
    -- the chosen instance: a creation whose body is accepted, under a URL that is authorized for
    -- the tenant and whose slug is a free id in a valid state, succeeds; the answer and its
    -- Location name that URL, and the lookup by that URL finds the list from then on, the tenant's
    -- own and for the purpose that was asked for.
    pub create_status_list_handler-list_from_url :
        (answer : CreateResponse) × (t : storage.State) × (p : Outside signing)
        × (r : StatusListRecord) × (create_status_list_handler decode_uri_component parse_url lib
              storage signing deps schema tenant json
              (s, o)
            ≡ (ok answer, (t, p)))
        × (answer.id ≡ url)
        × (answer.location ≡ url)
        × (list_from_url decode_uri_component parse_url deps.public_base_url storage url t ≡ ok r)
        × (r.tenant_id ≡ tenant.tenant_id)
        × (r.status_purpose ≡ body.status_purpose)
    unfolding create_status_list_handler chosen_address
    create_status_list_handler-list_from_url =
        let w : Creates lib storage signing deps contract input c id url s _ =
          create_list-Creates lib storage signing deps contract laws input works c accepted s o
            valid free in
        (
          record {
            location = canonical_url_of (w.stored) deps.public_base_url;
            verifiable_credential = w.stored.signed_credential;
            id = canonical_url_of (w.stored) deps.public_base_url;
          },
          w.state,
          w.rest,
          w.stored,
          rw (parsed, instance_found, chosen, authorized, slug, w.returns),
          w.url_is,
          w.url_is,
          list_from_url-slug decode_uri_component parse_url deps.public_base_url storage url id
                (w.state) slug
              ∙ rw (w.lists id, eq_refl id, (eq_iff _ _).1 (w.url_is)),
          w.tenant,
          w.purpose,
        )
