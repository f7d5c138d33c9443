-- ===== src/Server.antt =====
-- service/src/server.ts: `run`, up to the app that it serves. The storage's `init` and the listening
-- are left out.
pub mod Access
use vcalm_status_service.Common.{ℕ, String, Bool, Option}
use vcalm_status_service.Errors.{Result, ok}
use vcalm_status_service.Errors.Results.{◌>>=◌}
use vcalm_status_service.Tenants.Env.{Env}
use vcalm_status_service.StatusLists.Manager.{Deps}
use vcalm_status_service.Config.{Config, parse_config}
use vcalm_status_service.Services.{Services, Platform, create_services}
use vcalm_status_service.App.{Request, Response}
use vcalm_status_service.App.Handle.{AppState, Outer, handle}

module _ (integer : String → Option ℕ) (is_url : String → Bool) (platform : Platform) where
  -- The configuration and the services that the app is made of.
  unfoldable pub start : Env → Result (Config × Services)
  start vars = do
    config ← parse_config integer is_url vars
    services ← create_services platform config vars
    ok (config, services)

-- A request to the app that `run` serves.
unfoldable pub serve :
    (config : Config) (services : Services)
    → Outer services
    → Deps
    → String
    → Request
    → AppState services
    → Response × AppState services
serve config services outer deps fresh r s =
    handle services outer deps config.access_jwt_secret config.log_level fresh r s
