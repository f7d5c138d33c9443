-- ===== src/App/Logs.antt =====
-- What the log says of a request.
use mathlib.Core.List.{append-nil}
use vcalm_status_service.Common.{
  ℕ, ◌<◌, ◌≤◌, String, ◌≡◌, refl, ap, sym, ◌∙◌, ◌⊎◌, inl, inr, Option, none, some, List, [], ◌∷◌,
  ◌++◌, Bool-cases, get_or, arith, leb, leb→le, not_leb→lt,
}
use vcalm_status_service.Errors.{Result, ok, err, Result-cases}
use vcalm_status_service.Problem.{blank, without_code, to_problem_details, error_handler}
use vcalm_status_service.StatusLists.Manager.{Deps}
use vcalm_status_service.StatusLists.Manager.Effects.{World}
use vcalm_status_service.Config.{LogLevel, debug, info, warn, error}
use vcalm_status_service.Services.{Services}
use vcalm_status_service.Routes.Retrieve.{RetrieveResponse, not_modified, content}
use vcalm_status_service.App.{
  Operation, index, healthz, status_lists, status_list, credentials_status,
  credentials_status_allocate, Request, Answer, banner, healthy, preflight, list_created,
  list_retrieved, entry_allocated, status_updated, problem, unhealthy, status_of, LogEntry,
  request_line, unhandled_error, healthz_failed, write,
}
use vcalm_status_service.App.Handle.{
  AppState, Outer, finish, health_check, operate, on_error, run_found, dispatch, handle,
}

-- The line that a failure of the service's own has written.
abbrev pub IsFailureLine : LogEntry → Type 0
IsFailureLine (request_line id method path status) = ⊥
IsFailureLine _ = Unit

-- What failures are told of an answer: one where its status is 5xx, and none otherwise.
abbrev pub IsTold : ℕ → List LogEntry → Type 0
IsTold status failures =
    ((status < 500) × (failures ≡ []))
    ⊎ ((500 ≤ status) × (line : LogEntry) × IsFailureLine line × (failures ≡ line ∷ []))

write-failure :
    (level : LogLevel) (line : LogEntry) (log : List LogEntry)
    → IsFailureLine line
    → write level line log ≡ log ++ line ∷ []
write-failure debug (unhandled_error e m p) log h = refl
write-failure info (unhandled_error e m p) log h = refl
write-failure warn (unhandled_error e m p) log h = refl
write-failure error (unhandled_error e m p) log h = refl
write-failure debug (healthz_failed e) log h = refl
write-failure info (healthz_failed e) log h = refl
write-failure warn (healthz_failed e) log h = refl
write-failure error (healthz_failed e) log h = refl
write-failure level (request_line id m p n) log h = absurd h

module _ (services : Services) (outer : Outer services) (deps : Deps) (secret : Option String)
    (level : LogLevel) where
  -- The log went on from another by what is told of the answer.
  abbrev pub Tells : List LogEntry → Answer × AppState services → Type 0
  Tells log (answer, s) =
      (failures : List LogEntry) × (s.log ≡ log ++ failures) × IsTold (status_of answer) failures

  Tells-failure :
      (log : List LogEntry) (line : LogEntry) (a : Answer) (s : AppState services)
      → IsFailureLine line
      → 500 ≤ status_of a
      → s.log ≡ write level line log
      → Tells log (a, s)
  Tells-failure log line a s is_failure fault h =
      (line ∷ [], h ∙ write-failure level line log is_failure, inr (fault, line, is_failure, refl))

  Tells-nothing :
      (log : List LogEntry) (a : Answer) (s : AppState services)
      → status_of a < 500
      → s.log ≡ log
      → Tells log (a, s)
  Tells-nothing log a s fine h = ([], h ∙ sym (append-nil log), inl (fine, refl))

  -- A handler that throws leaves the log to the error handler.
  abbrev Leaves : List LogEntry → Result Answer × AppState services → Type 0
  Leaves log (ok a, s) = Tells log (a, s)
  Leaves log (err e, s) = s.log ≡ log

  finish-Leaves :
      {A : Type 0} (f : A → Answer)
      → ((a : A) → status_of (f a) < 500)
      → (s : AppState services) (m : Result A × World services.signing services.storage)
      → Leaves s.log (finish services outer deps secret level f s m)
  finish-Leaves f fine s (ok a, w) =
      Tells-nothing s.log (f a) (record s { world = w }) (fine a) refl
  finish-Leaves f fine s (err e, w) = refl

  retrieved_fine : (r : RetrieveResponse) → status_of (list_retrieved r) < 500
  retrieved_fine (not_modified etag cache) = omega arith
  retrieved_fine (content etag cache type credential) = omega arith

  health_check-Leaves :
      (s : AppState services) → Leaves s.log (health_check services outer deps secret level s)
  unfolding health_check
  health_check-Leaves s = elim (Result-cases (outer.ping s.world.0)) [
    | inl (u, up) ↦ rw up (Tells-nothing s.log healthy s (omega arith) refl)
    | inr (e, down) ↦ rw down (
        Tells-failure s.log (healthz_failed e) (unhealthy (without_code blank 503))
          (record s { log = write level (healthz_failed e) s.log }) tt (omega arith) refl)
  ]

  operate-Leaves :
      (op : Operation) (id : String) (r : Request) (s : AppState services)
      → Leaves s.log (operate services outer deps secret level op id r s)
  unfolding operate
  operate-Leaves index id r s = Tells-nothing s.log banner s (omega arith) refl
  operate-Leaves healthz id r s = health_check-Leaves s
  operate-Leaves status_list id r s = finish-Leaves list_retrieved retrieved_fine s _
  operate-Leaves status_lists id r s = finish-Leaves list_created (λ a. omega arith) s _
  operate-Leaves credentials_status_allocate id r s =
      finish-Leaves entry_allocated (λ a. omega arith) s _
  operate-Leaves credentials_status id r s = finish-Leaves status_updated (λ a. omega arith) s _

  on_error-Tells :
      (log : List LogEntry) (r : Request) (m : Result Answer × AppState services)
      → Leaves log m
      → Tells log (on_error services outer deps secret level r m)
  unfolding error_handler
  on_error-Tells log r (ok a, s) h = h
  on_error-Tells log r (err e, s) h = elim (Bool-cases (leb 500 (to_problem_details e).status)) [
    | inl fault ↦ rw fault (
        Tells-failure log (unhandled_error e r.method r.path) (problem (to_problem_details e))
          (record s { log = write level (unhandled_error e r.method r.path) s.log }) tt
          (leb→le 500 _ fault) (ap (write level (unhandled_error e r.method r.path)) h))
    | inr fine ↦
        rw fine (Tells-nothing log (problem (to_problem_details e)) s (not_leb→lt 500 _ fine) h)
  ]

  run_found-Tells :
      (r : Request) (found : Option (Operation × String)) (s : AppState services)
      → Tells s.log (run_found services outer deps secret level r found s)
  run_found-Tells r none s =
      Tells-nothing s.log (problem (without_code blank 404)) s (omega arith) refl
  run_found-Tells r (some (op, id)) s = on_error-Tells s.log r _ (operate-Leaves op id r s)

  dispatch-Tells :
      (r : Request) (s : AppState services)
      → Tells s.log (dispatch services outer deps secret level r s)
  dispatch-Tells r s = elim (Bool-cases (outer.hono.is_preflight r)) [
    | inl e ↦ rw e (Tells-nothing s.log preflight s (omega arith) refl)
    | inr e ↦ rw e (run_found-Tells r _ s)
  ]

  -- A request to the app is answered under the id that it brought, or else the one made up for it.
  -- Its log goes on with one line of a failure if the answer's status is 5xx, mapped or not, and
  -- none otherwise, and ends in a line with that id, the method, the path and the status of the
  -- answer, if the logger's level lets it through.
  pub handle_logs :
      (fresh : String) (r : Request) (s : AppState services)
      → let (response, t) = handle services outer deps secret level fresh r s in
        (response.request_id ≡ get_or r.request_id fresh)
        × ((failures : List LogEntry) × (t.log
              ≡ write level
                  (request_line response.request_id r.method r.path (status_of response.answer))
                  (s.log ++ failures))
            × IsTold (status_of response.answer) failures)
  unfolding handle
  handle_logs fresh r s =
      let (failures, grown, told) = dispatch-Tells r s in
      (refl, (failures, ap (write level (request_line _ r.method r.path _)) grown, told))
