-- ===== src/App/Atomic.antt =====
-- What a request that fails leaves of storage.
use vcalm_status_service.Common.{
  ◌≤◌, ◌<◌, String, ◌≡◌, ◌≢◌, refl, ap, inl, inr, Option, none, some, Bool-cases, arith,
}
use vcalm_status_service.Json.{Json}
use vcalm_status_service.Errors.{Result, ok, err, Action, lift, ◌>>=◌}
use vcalm_status_service.Storage.Contract.{Contract}
use vcalm_status_service.Tenants.{TenantRecord}
use vcalm_status_service.StatusLists.Manager.{Deps}
use vcalm_status_service.StatusLists.Manager.Effects.{World}
use vcalm_status_service.StatusLists.Manager.Atomic.{Atomic}
use vcalm_status_service.Config.{LogLevel}
use vcalm_status_service.Services.{Services}
use vcalm_status_service.Routes.Retrieve.{
  RetrieveResponse, not_modified, content, get_status_list_handler,
}
use vcalm_status_service.Routes.Create.Atomic.{create_status_list_handler-Atomic}
use vcalm_status_service.Routes.Update.Atomic.{handler-Atomic}
use vcalm_status_service.App.{
  Operation, index, healthz, status_lists, status_list, credentials_status,
  credentials_status_allocate, operations, Request, Answer, banner, list_created, list_retrieved,
  status_updated, status_of, find_operation,
}
use vcalm_status_service.App.Handle.{
  AppState, Outer, finish, health_check, for_tenant, caller, operate, on_error, run_found, handle,
}
use vcalm_status_service.App.Access.{health_check-world}

module _ (services : Services) (outer : Outer services) (deps : Deps) (secret : Option String)
    (level : LogLevel) (contract : Contract services.storage) where
  abbrev AtomicIn :
      {A : Type 0}
      → World services.signing services.storage
      → Result A × World services.signing services.storage
      → Type 0
  AtomicIn w x = Atomic services.storage services.signing w.0 w.1 x

  for_tenant-Atomic :
      {A : Type 0} (r : Request) (w : World services.signing services.storage)
      (handler : TenantRecord → Json → Action (World services.signing services.storage) A)
      → ((t : TenantRecord) (json : Json) → AtomicIn w (handler t json w))
      → AtomicIn w (
          for_tenant services outer deps secret level
            (caller services outer deps secret level r)
            (λ t. lift r.json >>= handler t)
            w)
  for_tenant-Atomic r w handler h = by_caller (caller services outer deps secret level r) r.json
    where
      by_caller :
          (tenant : Result TenantRecord) (json : Result Json)
          → AtomicIn w
              (for_tenant services outer deps secret level tenant (λ t. lift json >>= handler t) w)
      by_caller (err e) json = refl
      by_caller (ok t) (err e) = refl
      by_caller (ok t) (ok j) = h t j

  -- An answer with a status from 400 up, or an error, comes with storage as it was.
  abbrev Restores : AppState services → Result Answer × AppState services → Type 0
  Restores s (ok a, t) = 400 ≤ status_of a → t.world.0 ≡ s.world.0
  Restores s (err e, t) = t.world.0 ≡ s.world.0

  finish-Restores :
      {A : Type 0} (f : A → Answer)
      → ((a : A) → status_of (f a) < 400)
      → (s : AppState services) (x : Result A × World services.signing services.storage)
      → AtomicIn s.world x
      → Restores s (finish services outer deps secret level f s x)
  finish-Restores f fine s (ok a, w) h = λ failed. absurd (omega (arith, fine a, failed))
  finish-Restores f fine s (err e, w) h = h

  read-Atomic :
      {A : Type 0} (r : Result A) (w : World services.signing services.storage) → AtomicIn w (r, w)
  read-Atomic (ok a) w = tt
  read-Atomic (err e) w = refl

  retrieved_fine : (r : RetrieveResponse) → status_of (list_retrieved r) < 400
  retrieved_fine (not_modified etag cache) = omega arith
  retrieved_fine (content etag cache type credential) = omega arith

  unchanged :
      (s : AppState services) (x : Result Answer × AppState services)
      → x.1.world ≡ s.world
      → Restores s x
  unchanged s (ok a, t) h = λ failed. ap (λ (w : World services.signing services.storage). w.0) h
  unchanged s (err e, t) h = ap (λ (w : World services.signing services.storage). w.0) h

  operate-Restores :
      (op : Operation) (id : String) (r : Request) (s : AppState services)
      → op ≢ credentials_status_allocate
      → Restores s (operate services outer deps secret level op id r s)
  unfolding operate
  operate-Restores index id r s other = unchanged s (ok banner, s) refl
  operate-Restores healthz id r s other =
      unchanged s (health_check services outer deps secret level s)
        (health_check-world services outer deps secret level s)
  operate-Restores status_list id r s other = finish-Restores list_retrieved retrieved_fine s _ (
      read-Atomic
        (get_status_list_handler outer.parse_url services.storage services.tenants
          services.public_base_url
          (record { id = id; hosts = r.hosts; if_none_match = r.if_none_match; accept = r.accept })
          s.world.0)
        s.world)
  operate-Restores status_lists id r s other =
      finish-Restores list_created (λ a. omega arith) s _
        (for_tenant-Atomic r s.world _ (
          create_status_list_handler-Atomic outer.decode_uri_component outer.parse_url
            services.storage contract outer.bits services.signing deps s.world.0 s.world.1
            outer.create_schema))
  operate-Restores credentials_status id r s other =
      finish-Restores status_updated (λ a. omega arith) s _
        (for_tenant-Atomic r s.world _ (λ t json.
          handler-Atomic outer.decode_uri_component outer.parse_url services.public_base_url
            services.storage contract outer.bits services.signing deps s.world.0 s.world.1
            outer.update_schema t.tenant_id json))
  operate-Restores credentials_status_allocate id r s other = absurd (other refl)

  on_error-Restores :
      (r : Request) (s : AppState services) (m : Result Answer × AppState services)
      → Restores s m
      → let (a, t) = on_error services outer deps secret level r m in
        400 ≤ status_of a → t.world.0 ≡ s.world.0
  on_error-Restores r s (ok a, t) h = h
  on_error-Restores r s (err e, t) h = λ failed. h

  run_found-Restores :
      (r : Request) (s : AppState services) (found : Option (Operation × String))
      → ((id : String) → found ≢ some (credentials_status_allocate, id))
      → let (a, t) = run_found services outer deps secret level r found s in
        400 ≤ status_of a → t.world.0 ≡ s.world.0
  run_found-Restores r s none other = λ failed. refl
  run_found-Restores r s (some (op, id)) other =
      on_error-Restores r s _
        (operate-Restores op id r s (λ e. other id (ap (λ o. some (o, id)) e)))

  -- Over a storage that keeps its contract, a request to the app that is not dispatched to the
  -- allocate route and is answered with a status from 400 up leaves storage as it was, wherever it
  -- failed.
  pub handle_atomic :
      (fresh : String) (r : Request) (s : AppState services)
      → ((id : String)
          → find_operation outer.hono operations r ≢ some (credentials_status_allocate, id))
      → 400 ≤ status_of (handle services outer deps secret level fresh r s).0.answer
      → (handle services outer deps secret level fresh r s).1.world.0 ≡ s.world.0
  unfolding handle
  handle_atomic fresh r s other = elim (Bool-cases (outer.hono.is_preflight r)) [
    | inl e ↦ rw e (λ failed. refl)
    | inr e ↦ rw e (run_found-Restores r s _ other)
  ]
