-- ===== src/Lib.antt =====
-- A model of the continuous integration server abstruse, in Go. A push to a repository makes a build;
-- server/parser reads the repository's configuration and makes the jobs of the build;
-- server/scheduler queues the jobs, picks a worker for each and follows it to its end; the hub of
-- server/ws tells the browsers that subscribed. A worker runs the commands of a job in a container and
-- streams the log back. The files, and the code that each is about:
--
-- - Prelude, Prelude/*: shared names, a monad of results on a state, Boolean tests, lists over the
--   native numbers, and what the
--   program uses of Go's strings package.
-- - Slice, Slice/Laws, Slice/Distinct: Go slices with their backing array, and the removal of elements
--   while a `range` loop reads that array, as server/ws does it twice.
-- - Core, Pb: the rows of server/core and the messages of pb/api.proto.
-- - Parser/Config (Jobs, Commands, Branches): ConfigParser of server/parser/parser.go, `Parse`,
--   `ShouldBuild`, `generateCommands` and `generateDeployCommands`.
-- - Parser/Env (Tag): `GenerateGlobalEnv` of server/parser/env.go.
-- - Scheduler/*: server/scheduler/scheduler.go and server/worker/registry.go. State is the struct
--   `scheduler` with the workers' counters and the goroutines; Queue, Workers, Builds and Env are the
--   helpers of those names; Start is `startJob`; Ops holds the methods, the loop, and a step for every
--   event. Its children say what the operations do (Effects), what holds between steps (Invariant),
--   what happens to queued and stopped jobs (Queueing, Stopping, Emptied) and what the locks do not
--   rule out (Races).
-- - Ws/Client, Ws/App, Ws/Sessions: server/ws/client.go and server/ws/app.go.
-- - Webhook/Scm, Webhook/Events, Webhook/GitHook (Accepted, Ignored), Webhook/Handler (Outcome): the
--   payloads of go-scm, server/service/githook/parser.go, and `HandleHook` of
--   server/api/webhook/hook.go, from a request to the build that it triggers.
-- - Gitscm, Gitscm/Laws: pkg/gitscm/scm.go and pkg/gitscm/gitea.go.
-- - Store/Builds (Stored, Generated, Triggered), Store/Status, Store/Rows: `GenerateBuild`, `TriggerBuild`
--   and `FindStatus` of server/store/build/build.go, and the badge of server/api/badge/badge.go.
-- - Store/Database (First), Store/Repos (Access, Finding, Unique), Store/Hooks (Filter):
--   server/store/repo/repo.go.
-- - Store/Sync (Pages, Ending): `Sync` of server/store/provider/provider.go.
-- - Store/Users (Logins), Store/Jobs (Logs): server/store/user/user.go with internal/auth/bcrypt.go, and
--   server/store/job/job.go.
-- - Store/Teams: server/store/team/team.go and server/store/permission/permission.go.
-- - Auth/Claims (Parsed), Auth/Request, Auth/FromJwt, Auth/Middleware (Accepted, Roundtrip), Auth/Worker (Credentials):
--   internal/auth, server/api/middlewares/auth.go and worker/app/interceptor.go.
-- - Api/Answer (Spared), Api/Builds (Denied), Api/Logs (Shown), Api/Repos (Hooked), Api/Env (Secrets),
--   Api/Mounts, Api/Settings (Entitled): handlers of server/api/build and server/api/repo.
-- - Api/Router (Guarded): the routes of server/api/api.go and what stands in front of them.
-- - Api/Teams (Reconciled, Held, Updated), Api/Accounts (Tokens, Entered, Admins), Api/Providers: handlers of
--   server/api/team, server/api/user, server/api/setup and server/api/provider.
-- - Stats (Oldest), Api/Stats: server/service/stats/stats.go and the handlers of server/api/stats.
-- - Worker/Server (Keys, Calls): `StartJob` and `StopJob` of worker/app/server.go.
-- - Pipeline, Pipeline/Queue, Pipeline/Calls, Pipeline/Manual, Pipeline/Stopped: the handlers of
--   webhooks and of builds with the store of builds and the scheduler as their arguments, as
--   server/api/api.go passes them.
-- - Remote, Remote/Stream, Remote/Window: `StartJob` and `usageStats` of server/core/worker.go.
-- - Remote/Connection (Races): `NewWorker` and `Connect` of server/core/worker.go, and `HandleAuth` of
--   server/api/worker/auth.go, with the registry.
-- - Worker/Plan, Worker/Docker (Order, Success, Generated): `RunContainer` and `createContainer` of
--   worker/docker/docker.go, with `DeleteEmpty` of pkg/lib/collection.go; `ran` is the list of the
--   commands handed to docker.
-- - Worker/Reconnect (Stuck, Recovery): the goroutines of `Run` of worker/app/app.go.
-- - Worker/Images: worker/docker/image.go.
-- - Worker/Http, Worker/Cache (Names), Worker/Git (Checkout): worker/http, worker/cache,
--   `sendAuthRequest` of worker/app/app.go, and worker/git/clone.go.
-- - Tests/*: concrete inputs.
--
-- How the code is represented. A pointer is a number and a heap gives what it points to, where the
-- aliasing matters: the workers and the websocket clients. A goroutine is an entry in a list, and
-- an event says which of them goes on; the code between two points where others can interfere is
-- one step. `startJob` is two steps, on either side of the call of the worker. A method that takes
-- the lock several times is one step as well: interleavings inside `Next` or `Stop` are not
-- modelled, and so are not those inside `updateBuildTime`. Errors are texts in an Option; panics
-- are `none`, and in the stores a result of their own. Every loop is structural recursion on the
-- list that it ranges over, but for two: `decimal` has fuel for more digits than the number has,
-- and the loop of `Sync` over the pages of an account has no bound in the source, so its result is
-- proved to exist where a page is not full.
--
-- The counters of a worker are ints in the source and natural numbers here. The
-- decrement of `Running` stops at 0 where the int would go below; in `findWorker` a worker
-- that runs more than its maximum has the difference 0 where the int is negative, and neither passes
-- the test. Times are numbers.
--
-- Outside code is a parameter: the route that chi picks, the database stores and the SCM provider (the records `Services`,
-- `Stores`, `Clients`, `Tables`, `Backend`, `RepoBackend`, `Outside`, `JobTable`, `Clock`,
-- `Net`, `Files`, `Git`, `Client` and `GoScm`), jwt-go, bcrypt, docker and the cache (the record `Docker`),
-- YAML, regular expressions, the JSON of the commands, terminal colours, the order in which a map is
-- ranged over, the time, and what a worker answers or streams. Log lines and
-- broadcasts of a job's status have no effect on the modelled state and are left out.
--
-- Not modelled: the HTTP handlers that pass one call on or move a file, the stores that only call gorm,
-- sockets and certificates, the readings of the machine's load, start-up and the web frontend.
pub mod Prelude
pub mod Slice
pub mod Ws
pub mod Core
pub mod Gitscm
pub mod Auth
pub mod Pipeline
pub mod Api
pub mod Store
pub mod Pb
pub mod Parser
pub mod Scheduler
pub mod Remote
pub mod Webhook
pub mod Worker
pub mod Stats
pub mod Tests
