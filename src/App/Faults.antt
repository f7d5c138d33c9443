-- ===== src/App/Faults.antt =====
-- What a request that no handler gets to work on is answered with.
use vcalm_status_service.Common.{
  String, ◌≡◌, refl, ap, ◌∙◌, ◌⊎◌, inl, inr, false, Option, none, some, get_or,
}
use vcalm_status_service.Errors.{Error, ok, err, problem_error, plain_error}
use vcalm_status_service.Problem.{to_problem_details, error_handler}
use vcalm_status_service.StatusLists.Manager.{Deps}
use vcalm_status_service.Config.{LogLevel}
use vcalm_status_service.Tenants.{TenantRecord}
use vcalm_status_service.Auth.{
  bearer_token, resolve_tenant, authenticate, authenticated, tenant_auth,
}
use vcalm_status_service.Services.{Services}
use vcalm_status_service.App.{
  post, Operation, index, healthz, status_lists, status_list, credentials_status,
  credentials_status_allocate, method_of, operations, Request, problem, status_of, write,
  request_line, unhandled_error, find_operation,
}
use vcalm_status_service.App.Handle.{AppState, Outer, caller, operate, handle}

module _ (services : Services) (outer : Outer services) (deps : Deps) (secret : Option String)
    (level : LogLevel) where
  refused_by :
      (tenant : Option TenantRecord) {e : Error}
      → authenticated outer.verify tenant ≡ err e
      → e ≡ problem_error 401
  refused_by none h = cc
  refused_by (some t) h = cc

  refused_without :
      (token : Option String) {e : Error}
      → authenticate outer.verify services.tenants secret token ≡ err e
      → e ≡ problem_error 401
  refused_without none h = cc
  refused_without (some token) h =
      refused_by (resolve_tenant outer.verify token services.tenants secret) h

  caller_refused :
      (r : Request) {e : Error}
      → caller services outer deps secret level r ≡ err e
      → e ≡ problem_error 401
  unfolding caller tenant_auth
  caller_refused r h = refused_without (bearer_token r.authorization) h

  -- The caller is refused, or its body cannot be read.
  abbrev pub Throws : Request → Error → Type 0
  Throws r e =
      (caller services outer deps secret level r ≡ err e)
      ⊎ ((t : TenantRecord) × (caller services outer deps secret level r ≡ ok t) × (r.json ≡ err e))

  operate-Throws :
      (op : Operation) (id : String) (r : Request) (s : AppState services) (e : Error)
      → method_of op ≡ post
      → Throws r e
      → operate services outer deps secret level op id r s ≡ (err e, s)
  unfolding operate
  operate-Throws index id r s e p h = cc
  operate-Throws healthz id r s e p h = cc
  operate-Throws status_list id r s e p h = cc
  operate-Throws status_lists id r s e p (inl refused) = rw refused refl
  operate-Throws status_lists id r s e p (inr (t, known, unreadable)) = rw (known, unreadable) refl
  operate-Throws credentials_status_allocate id r s e p (inl refused) = rw refused refl
  operate-Throws credentials_status_allocate id r s e p (inr (t, known, unreadable)) =
      rw (known, unreadable) refl
  operate-Throws credentials_status id r s e p (inl refused) = rw refused refl
  operate-Throws credentials_status id r s e p (inr (t, known, unreadable)) =
      rw (known, unreadable) refl

  module _ (fresh : String) (r : Request) (s : AppState services) {op : Operation} {id : String}
      (asked : outer.hono.is_preflight r ≡ false)
      (found : find_operation outer.hono operations r ≡ some (op, id))
      (is_write : method_of op ≡ post) where
    thrown_out :
        (e : Error)
        → Throws r e
        → ((handle services outer deps secret level fresh r s).0.answer
            ≡ problem (to_problem_details e))
          × ((handle services outer deps secret level fresh r s).1.world ≡ s.world)
    unfolding handle error_handler
    thrown_out e h = rw (asked, found, operate-Throws op id r s e is_write h) (refl, refl)

    -- A request that is not a preflight and is dispatched to a write, by a caller that the tenant
    -- authentication refuses, is answered with the problem document of status 401 and changes
    -- nothing of what the service keeps.
    pub handle_refused :
        (e : Error)
        → caller services outer deps secret level r ≡ err e
        → ((handle services outer deps secret level fresh r s).0.answer
            ≡ problem (to_problem_details (problem_error 401)))
          × ((handle services outer deps secret level fresh r s).1.world ≡ s.world)
    handle_refused e refused =
        let (answer, world) = thrown_out e (inl refused) in
        (answer ∙ ap (λ x. problem (to_problem_details x)) (caller_refused r refused), world)

    -- A request that is not a preflight and is dispatched to a write, by a tenant, with a body on
    -- which the reading of JSON throws, is answered with 500 and logged as an unhandled error of
    -- the service; it changes nothing of what the service keeps.
    pub handle_malformed :
        (t : TenantRecord)
        → caller services outer deps secret level r ≡ ok t
        → r.json ≡ err plain_error
        → (status_of (handle services outer deps secret level fresh r s).0.answer ≡ 500)
          × ((handle services outer deps secret level fresh r s).1.world ≡ s.world)
          × ((handle services outer deps secret level fresh r s).1.log
              ≡ write level
                  (request_line (get_or r.request_id fresh) r.method r.path 500)
                  (write level (unhandled_error plain_error r.method r.path) s.log))
    unfolding handle error_handler to_problem_details
    handle_malformed t known unreadable =
        rw
          (asked, found, operate-Throws op id r s plain_error is_write (inr (t, known, unreadable)))
          (refl, refl, refl)
