-- ===== src/Routes/Update/Isolation.antt =====
-- Whose lists `POST /credentials/status` of service/src/routes/credentials-status.ts changes.
use mathlib.Core.Path.{subst}
use vcalm_status_service.Common.{
  ℕ, String, ◌≡◌, ◌≢◌, refl, sym, ap, ◌∙◌, ◌⊎◌, Bool, Option, none, some, ◌==◌, string_eq, eq_iff,
  beq_ne, Bool-cases, inl, inr,
}
use vcalm_status_service.Json.{nat}
use vcalm_status_service.Errors.{Error, Result, ok, err, problem_error, Result-cases}
use vcalm_status_service.Storage.{purpose_eq, StatusListRecord, StorageService}
use vcalm_status_service.Storage.Contract.{Contract}
use vcalm_status_service.Signing.{SigningService}
use vcalm_status_service.StatusLists.Bitstring.{BitstringLibrary}
use vcalm_status_service.StatusLists.Manager.{Deps, StatusChange}
use vcalm_status_service.StatusLists.Manager.Effects.{Outside, World}
use vcalm_status_service.StatusLists.Manager.Lists.{set_status}
use vcalm_status_service.StatusLists.Manager.Failures.{set_status_atomic}
use vcalm_status_service.Domains.{Url}
use vcalm_status_service.Routes.{canonical_url_of}
use vcalm_status_service.Routes.Update.{
  Selector, parse_index, list_segment, answers_to, list_at, list_in, list_of, list_from_url, set_at,
}

module _ (decode_uri_component : String → Option String) (parse_url : String → Option Url)
    (public_base_url : String) (storage : StorageService) where
  -- The list is stored, and this is its URL.
  pub record Answers (url : String) (r : StatusListRecord) (s : storage.State) : Type 0 where
    pub id : String
    pub stored : storage.get_status_list id s ≡ some r
    pub canonical : canonical_url_of r public_base_url ≡ url

  answers_to-Answers :
      (url id : String) (r : StatusListRecord) (s : storage.State) (found : Option StatusListRecord)
      → storage.get_status_list id s ≡ found
      → answers_to decode_uri_component parse_url public_base_url storage url found ≡ ok r
      → Answers url r s
  answers_to-Answers url id r s none h e = cc
  answers_to-Answers url id r s (some x) h e =
      elim (Bool-cases (canonical_url_of x public_base_url == url)) [
        | inl same ↦
            let it : x ≡ r = cc (rw same at e) in
            record {
              id = id;
              stored = h ∙ ap (λ y. some y) it;
              canonical =
                  subst (λ y. canonical_url_of y public_base_url ≡ url) it ((eq_iff _ _).0 same);
            }
        | inr other ↦ cc (rw other at e)
      ]

  -- A list that is found by its URL is stored and answers to it.
  pub list_from_url-Answers :
      (url : String) (r : StatusListRecord) (s : storage.State)
      → list_from_url decode_uri_component parse_url public_base_url storage url s ≡ ok r
      → Answers url r s
  unfolding list_from_url
  list_from_url-Answers url r s = of_url (parse_url url)
    where
      of_id :
          (id : Option String)
          → list_at decode_uri_component parse_url public_base_url storage url id s ≡ ok r
          → Answers url r s
      of_id none e = cc
      of_id (some id) e = answers_to-Answers url id r s (storage.get_status_list id s) refl e

      of_segment :
          (segment : Option String)
          → list_in decode_uri_component parse_url public_base_url storage url segment s ≡ ok r
          → Answers url r s
      of_segment none e = cc
      of_segment (some segment) e = of_id (decode_uri_component segment) e

      of_url :
          (u : Option Url)
          → list_of decode_uri_component parse_url public_base_url storage url u s ≡ ok r
          → Answers url r s
      of_url none e = cc
      of_url (some u) e = of_segment (list_segment (u.pathname)) e

  module _ (lib : BitstringLibrary) (signing : SigningService) (deps : Deps) (tenant_id : String)
      (selector : Selector) (v : Bool) (raw url : String) (s : storage.State)
      (o : Outside signing) where
    abbrev outcome : Result StatusChange × World signing storage
    outcome =
        set_at decode_uri_component parse_url public_base_url storage lib signing deps tenant_id
          selector v raw url (s, o)

    -- The call came down to a change of one entry of a list of the tenant's own.
    pub record SetsOwn : Type 0 where
      pub list : StatusListRecord
      pub index : ℕ
      pub answers : Answers url list s
      pub own : list.tenant_id ≡ tenant_id
      pub purpose : list.status_purpose ≡ selector.status_purpose
      pub read : parse_index raw ≡ ok index
      pub sets : outcome ≡ set_status lib storage signing deps (list.id) (nat index) v (s, o)

    -- A status update by list URL and index either comes down to `set_status` on one entry of a
    -- stored list that the URL names, that is the tenant's own and has the purpose, at the index as
    -- it was parsed, or it throws and neither storage nor the signer nor a clock is touched.
    pub set_at-SetsOwn : SetsOwn ⊎ ((e : Error) × (outcome ≡ (err e, (s, o))))
    unfolding set_at
    set_at-SetsOwn =
        elim (Result-cases
          (list_from_url decode_uri_component parse_url public_base_url storage url s)) [
            | inr (e, missing) ↦ inr (e, rw missing)
            | inl (list, found) ↦ elim (Bool-cases (list.tenant_id == tenant_id)) [
              | inr foreign ↦ inr (problem_error 404, rw (found, foreign))
              | inl own ↦ elim (Bool-cases (list.status_purpose == selector.status_purpose)) [
                | inr other ↦ inr (problem_error 400, rw (found, own, other))
                | inl same ↦ elim (Result-cases (parse_index raw)) [
                  | inr (e, unread) ↦ inr (e, rw (found, own, same, unread))
                  | inl (index, read) ↦ inl (record {
                    list = list;
                    index = index;
                    answers = list_from_url-Answers url list s found;
                    own = (eq_iff _ _).0 own;
                    purpose = (purpose_eq.agrees _ _).0 same;
                    read = read;
                    sets = rw (found, own, same, read);
                  })
                ]
              ]
            ]
          ]

    -- A list of another tenant is answered exactly as a list that does not exist.
    pub set_at_foreign :
        (list : StatusListRecord)
        → list_from_url decode_uri_component parse_url public_base_url storage url s ≡ ok list
        → list.tenant_id ≢ tenant_id
        → outcome ≡ (err (problem_error 404), (s, o))
    unfolding set_at
    set_at_foreign list found other = rw (found, beq_ne other)

    -- Over a storage that keeps its contract, a status update by list URL and index that throws
    -- leaves storage as it was.
    pub set_at_atomic :
        (contract : Contract storage) (e : Error) (t : storage.State) (p : Outside signing)
        → outcome ≡ (err e, (t, p))
        → t ≡ s
    set_at_atomic contract e t p failed = elim set_at-SetsOwn [
      | inr (x, refused) ↦
          ap (λ (y : Result StatusChange × World signing storage). y.1.0) (sym failed ∙ refused)
      | inl own ↦
          set_status_atomic lib storage contract signing deps (own.list.id) (nat (own.index)) v s o
            e t p (sym (own.sets) ∙ failed)
    ]
