-- ===== src/App/Access.antt =====
-- Who may change what the service keeps.
use vcalm_status_service.Common.{
  String, ◌≡◌, ◌≢◌, refl, ap, sym, ◌∙◌, ◌⊎◌, inl, inr, Bool, true, false, Option, none, some, List,
  [], ◌∷◌, Bool-cases,
}
use vcalm_status_service.Errors.{Error, Result, ok, err, Result-cases}
use vcalm_status_service.StatusLists.Manager.{Deps}
use vcalm_status_service.Config.{LogLevel}
use vcalm_status_service.Services.{Services}
use vcalm_status_service.App.{
  Method, get, post, head, other, served_as, same_method, Operation, index, healthz, status_lists,
  status_list, credentials_status, credentials_status_allocate, pattern, method_of, operations,
  Request, Hono, Answer, found_at, find_operation,
}
use vcalm_status_service.App.Handle.{
  AppState, Outer, finish, health_check, caller, operate, on_error, run_found, dispatch, handle,
}

same_method-eq : (m n : Method) → same_method m n ≡ true → m ≡ n
same_method-eq get get h = refl
same_method-eq post post h = refl
same_method-eq get post h = cc
same_method-eq get head h = cc
same_method-eq get (other n) h = cc
same_method-eq post get h = cc
same_method-eq post head h = cc
same_method-eq post (other n) h = cc
same_method-eq head n h = cc
same_method-eq (other m) n h = cc

served_as-post : (m : Method) → post ≡ served_as m → m ≡ post
served_as-post get h = cc
served_as-post post h = refl
served_as-post head h = cc
served_as-post (other m) h = cc

module _ (hono : Hono) where
  -- An operation that is found has the method that the request is served as.
  pub find_operation-method :
      (ops : List Operation) (r : Request) {op : Operation} {id : String}
      → find_operation hono ops r ≡ some (op, id)
      → method_of op ≡ served_as r.method
  find_operation-method [] r h = cc
  find_operation-method (o ∷ rest) r {op} {id} h =
      by_method (same_method (method_of o) (served_as r.method)) (hono.matches (pattern o) r.path)
        (same_method-eq (method_of o) (served_as r.method)) (find_operation-method rest r) h
    where
      by_method :
          (same : Bool) (found : Option String)
          → (same ≡ true → method_of o ≡ served_as r.method)
          → (find_operation hono rest r ≡ some (op, id) → method_of op ≡ served_as r.method)
          → found_at same o found (find_operation hono rest r) ≡ some (op, id)
          → method_of op ≡ served_as r.method
      by_method true (some i) e later g = let here : o ≡ op = cc in ap method_of (sym here) ∙ e refl
      by_method true none e later g = later g
      by_method false (some i) e later g = later g
      by_method false none e later g = later g

module _ (services : Services) (outer : Outer services) (deps : Deps) (secret : Option String)
    (level : LogLevel) where
  pub finish-world :
      {A : Type 0} (f : A → Answer) (r : Result A) (s : AppState services)
      → (finish services outer deps secret level f s (r, s.world)).1.world ≡ s.world
  finish-world f (ok a) s = refl
  finish-world f (err e) s = refl

  on_error-world :
      (r : Request) (m : Result Answer × AppState services)
      → (on_error services outer deps secret level r m).1.world ≡ m.1.world
  on_error-world r (ok a, s) = refl
  on_error-world r (err e, s) = refl

  pub health_check-world :
      (s : AppState services) → (health_check services outer deps secret level s).1.world ≡ s.world
  unfolding health_check
  health_check-world s = elim (Result-cases (outer.ping s.world.0)) [
    | inl (u, up) ↦ rw up refl
    | inr (e, down) ↦ rw down refl
  ]

  -- What an operation that is not a write leaves as it was.
  operate_reads :
      (op : Operation) (id : String) (r : Request) (s : AppState services)
      → method_of op ≢ post
      → (operate services outer deps secret level op id r s).1.world ≡ s.world
  unfolding operate
  operate_reads index id r s h = refl
  operate_reads healthz id r s h = health_check-world s
  operate_reads status_list id r s h = finish-world _ _ s
  operate_reads status_lists id r s h = absurd (h refl)
  operate_reads credentials_status_allocate id r s h = absurd (h refl)
  operate_reads credentials_status id r s h = absurd (h refl)

  operate_refused :
      (op : Operation) (id : String) (r : Request) (s : AppState services) (e : Error)
      → caller services outer deps secret level r ≡ err e
      → (operate services outer deps secret level op id r s).1.world ≡ s.world
  unfolding operate
  operate_refused index id r s e h = refl
  operate_refused healthz id r s e h = health_check-world s
  operate_refused status_list id r s e h = finish-world _ _ s
  operate_refused status_lists id r s e h = rw h refl
  operate_refused credentials_status_allocate id r s e h = rw h refl
  operate_refused credentials_status id r s e h = rw h refl

  -- The request is not a POST, or it brings no credential of a tenant.
  abbrev pub MayOnlyRead : Request → Type 0
  MayOnlyRead r =
      (r.method ≢ post) ⊎ ((e : Error) × (caller services outer deps secret level r ≡ err e))

  dispatch_reads :
      (r : Request) (s : AppState services)
      → MayOnlyRead r
      → (dispatch services outer deps secret level r s).1.world ≡ s.world
  dispatch_reads r s h = elim (Bool-cases (outer.hono.is_preflight r)) [
    | inl e ↦ rw e refl
    | inr e ↦ rw e (by_operation _ (λ op id. find_operation-method outer.hono operations r))
  ]
    where
      by_operation :
          (found : Option (Operation × String))
          → ((op : Operation) (id : String)
              → found ≡ some (op, id)
              → method_of op ≡ served_as r.method)
          → (run_found services outer deps secret level r found s).1.world ≡ s.world
      by_operation none f = refl
      by_operation (some (op, id)) f = on_error-world r _ ∙ elim h [
        | inl read ↦
            operate_reads op id r s (λ e. read (served_as-post r.method (sym e ∙ f op id refl)))
        | inr (e, refused) ↦ operate_refused op id r s e refused
      ]

  -- A request to the app that is not a POST, or whose bearer credential gives no tenant, changes
  -- nothing of what the service keeps, the signer and the clocks included, whatever its path and
  -- its body are.
  pub handle_reads :
      (fresh : String) (r : Request) (s : AppState services)
      → MayOnlyRead r
      → (handle services outer deps secret level fresh r s).1.world ≡ s.world
  unfolding handle
  handle_reads fresh r s h = dispatch_reads r s h
