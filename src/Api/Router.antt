-- ===== src/Api/Router.antt =====
-- server/api/api.go: the routes, the middlewares in front of them, and which handler a request reaches. chi
-- picks a route by the method and the path; which one is a parameter.
pub mod Guarded
use abstruse.Prelude.{ℕ, String, Bool, List, [], ◌∷◌, ◌++◌, map, Option, none, some, get_elem?, cat}
use abstruse.Auth.Claims.{UserClaims, WorkerClaims}
use abstruse.Auth.Request.{Request, Decoded, verifier}
use abstruse.Auth.Middleware.{
  Passage, passed, refused, panicked, admit, worker_authenticator, setup_open,
}

pub data Method : Type 0 where
  get post put delete : Method

-- What `router.Use` puts in front of the routes of a group: nothing, `Authenticator` or
-- `WorkerAuthenticator` behind `Verifier`, or `SetupAuthenticator`.
pub data Guard : Type 0 where
  unguarded authenticated authenticated_worker setup : Guard

-- A handler goes by the name of the function that makes it.
pub record Route : Type 0 where
  pub method : Method
  pub pattern : String
  pub guard : Guard
  pub handler : String

abbrev route : Method → String → String → Route
route m pattern handler = record {
  method = m;
  pattern = pattern;
  guard = unguarded;
  handler = handler;
}

-- `router.Mount`
abbrev mount : String → List Route → List Route
mount prefix = map {A = Route} (λ r. record r { pattern = cat prefix r.pattern })

-- `router.Group` with `router.Use`; no group of the source holds another one.
abbrev group : Guard → List Route → List Route
group guard = map {A = Route} (λ r. record r { guard = guard })

abbrev pub auth_router : List Route
auth_router = route post "/login" "user.HandleLogin" ∷ []

abbrev pub setup_router : List Route
setup_router =
    route get "/ready" "setup.HandleReady"
    ∷ group setup (route post "/user" "setup.HandleUser" ∷ [])

abbrev pub users_router : List Route
users_router =
    route get "/" "user.HandleList"
    ∷ route post "/" "user.HandleCreate"
    ∷ route put "/" "user.HandleUpdate"
    ∷ route get "/profile" "user.HandleProfile"
    ∷ route put "/profile" "user.HandleUpdateProfile"
    ∷ route put "/password" "user.HandlePassword"
    ∷ route post "/avatar" "user.HandleAvatar"
    ∷ []

abbrev pub teams_router : List Route
teams_router =
    route get "/" "team.HandleList"
    ∷ route get "/{id}" "team.HandleFind"
    ∷ route post "/" "team.HandleCreate"
    ∷ route put "/" "team.HandleUpdate"
    ∷ []

abbrev pub providers_router : List Route
providers_router =
    route get "/" "provider.HandleListUser"
    ∷ route post "/" "provider.HandleCreate"
    ∷ route put "/" "provider.HandleUpdate"
    ∷ route get "/{id}" "provider.HandleFind"
    ∷ route delete "/{id}" "provider.HandleDelete"
    ∷ route put "/sync" "provider.HandleSync"
    ∷ []

abbrev pub repos_router : List Route
repos_router =
    route get "/" "repo.HandleList"
    ∷ route get "/{id}" "repo.HandleFind"
    ∷ route put "/{id}/active" "repo.HandleActive"
    ∷ route get "/{id}/hooks" "repo.HandleListHooks"
    ∷ route put "/{id}/hooks" "repo.HandleCreateHooks"
    ∷ route get "/{id}/config" "repo.HandleConfig"
    ∷ route get "/{id}/envs" "repo.HandleListEnv"
    ∷ route put "/{id}/envs" "repo.HandleCreateEnv"
    ∷ route post "/{id}/envs" "repo.HandleUpdateEnv"
    ∷ route delete "/{id}/envs/{envid}" "repo.HandleDeleteEnv"
    ∷ route get "/{id}/mounts" "repo.HandleListMount"
    ∷ route put "/{id}/mounts" "repo.HandleCreateMount"
    ∷ route post "/{id}/mounts" "repo.HandleUpdateMount"
    ∷ route delete "/{id}/mounts/{mountid}" "repo.HandleDeleteMount"
    ∷ route put "/{id}/ssh-private-key" "repo.HandleUpdateSSHPrivateKey"
    ∷ route put "/{id}/misc" "repo.HandleUpdateMisc"
    ∷ []

abbrev pub builds_router : List Route
builds_router =
    route get "/" "build.HandleList"
    ∷ route get "/{id}" "build.HandleFind"
    ∷ route put "/trigger" "build.HandleTrigger"
    ∷ route put "/restart" "build.HandleRestart"
    ∷ route put "/stop" "build.HandleStop"
    ∷ route get "/job/{id}" "build.HandleFindJob"
    ∷ route put "/job/restart" "build.HandleRestartJob"
    ∷ route put "/job/stop" "build.HandleStopJob"
    ∷ []

-- The list of the workers stands outside the group.
abbrev pub workers_router : List Route
workers_router =
    route get "/" "worker.HandleList"
    ∷ group authenticated_worker (
        route post "/auth" "worker.HandleAuth"
        ∷ route post "/cache" "worker.HandleUploadCache"
        ∷ route get "/cache" "worker.HandleDownloadCache"
        ∷ [])

abbrev pub system_router : List Route
system_router = route get "/version" "system.HandleVersion" ∷ []

abbrev pub stats_router : List Route
stats_router =
    route get "/" "stats.HandleStats"
    ∷ route get "/jobs" "stats.HandleJobs"
    ∷ route put "/scheduler/resume" "stats.HandleResume"
    ∷ route put "/scheduler/pause" "stats.HandlePause"
    ∷ []

unfoldable pub api_router : List Route
api_router =
    mount "/setup" setup_router
    ++ mount "/auth" auth_router
    ++ mount "/workers" workers_router
    ++ route get "/builds/job/{id}/log" "build.HandleLog"
      ∷ group authenticated (
          mount "/users" users_router
          ++ mount "/teams" teams_router
          ++ mount "/providers" providers_router
          ++ mount "/repos" repos_router
          ++ mount "/builds" builds_router
          ++ mount "/system" system_router
          ++ mount "/stats" stats_router)

-- `Handler`, less its own middlewares: they let a request on, or answer /ping and the requests of CORS.
unfoldable pub routes : List Route
unfolding api_router
routes =
    mount "/api/v1" api_router
    ++ route get "/ws" "ws.UpstreamHandler"
      ∷ route get "/badge/{token}" "badge.HandleBadge"
      ∷ route get "/uploads/*" "fileServer"
      ∷ route post "/webhooks" "webhook.HandleHook"
      ∷ []

-- What chi makes of a method and a path: the number of a route, a path without a route, for which
-- `NotFound` serves the files of the web page, or a path with routes for other methods only.
pub data Choice : Type 0 where
  picked : ℕ → Choice
  no_route not_allowed : Choice

-- Whom a handler has its claims of.
pub data Caller : Type 0 where
  nobody : Caller
  user : UserClaims → Caller
  worker : WorkerClaims → Caller

-- The handler that is reached, the answer of a middleware, or a panic.
pub data Served : Type 0 where
  reached : String → Caller → Served
  answered : ℕ → String → Served
  crashed : Served

abbrev pub served : {C : Type 0} → String → (C → Caller) → Passage C → Served
served handler caller (passed c) = reached handler (caller c)
served handler caller (refused status text) = answered status text
served handler caller panicked = crashed

module _ (signer : String) (decode : String → Decoded) (admin_exists : Bool) where
  abbrev pub through : Guard → String → Request → Served
  through unguarded handler r = reached handler nobody
  through authenticated handler r = served handler user (admit signer decode r)
  through authenticated_worker handler r =
      served handler worker (worker_authenticator (verifier signer decode r))
  through setup handler r = served handler (λ _. nobody) (setup_open admin_exists)

  -- No route has a number past the last one.
  abbrev pub chosen : Option Route → Request → Served
  chosen none r = answered 404 ""
  chosen (some found) r = through found.guard found.handler r

  unfoldable pub serve : Choice → Request → Served
  unfolding routes admit worker_authenticator verifier setup_open
  serve (picked n) r = chosen (get_elem? routes n) r
  serve no_route r = reached "ui" nobody
  serve not_allowed r = answered 405 ""
