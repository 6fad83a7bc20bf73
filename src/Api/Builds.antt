-- ===== src/Api/Builds.antt =====
-- The handlers of server/api/build that stop, start and trigger builds and jobs. The stores and the scheduler are those of the
-- handlers' arguments.
pub mod Denied
use abstruse.Prelude.{ℕ, String, Bool, List, [], ◌∷◌, Result, Effect, pure, ◌>>◌}
use abstruse.Core.{Perms, Build, Job}
use abstruse.Store.Builds.{TriggerBuildOpts}
use abstruse.Api.Answer.{
  Body, Answer, unauthorized, not_found, server_error, Handler, with_body, or_render,
  or_render_after, permitted, render_json,
}

-- `permissions` is GetPermissions of the repositories' store, for a repository and a user.
pub record Backend (S : Type 0) : Type 0 where
  pub find_job : ℕ → S → Result Job
  pub find_build : ℕ → S → Result Build
  pub permissions : ℕ → ℕ → S → Perms
  pub trigger : TriggerBuildOpts → Effect S (List Job)
  pub next : Job → Effect S (Unit {0})
  pub stop : ℕ → Effect S Bool
  pub stop_build : ℕ → Effect S (Unit {0})
  pub restart_build : ℕ → Effect S (Unit {0})

pub record TriggerForm : Type 0 where
  pub id : ℕ
  pub config : String
  pub sha : String
  pub branch : String

unfoldable pub trigger_opts : TriggerForm → ℕ → TriggerBuildOpts
trigger_opts f user = record {
  id = f.id;
  config = f.config;
  sha = f.sha;
  branch = f.branch;
  user_id = user;
}

module _ {S : Type 0} (backend : Backend S) where
  -- `if …, err := scheduler.…; err != nil { … }; render.JSON(…)`
  abbrev pub rendered : {A : Type 0} → Effect S A → Handler S A
  rendered m s = or_render_after server_error (m s) render_json

  unfoldable pub handle_stop_job : ℕ → Body ℕ → Handler S Bool
  handle_stop_job user body = with_body body (λ id s.
      or_render not_found (backend.find_job id s)
        (λ job s.
          permitted (backend.permissions job.build.repository_id user s).exec
            (rendered (backend.stop job.id)) s)
        s)

  unfoldable pub handle_stop : ℕ → Body ℕ → Handler S (Unit {0})
  handle_stop user body = with_body body (λ id s.
      or_render not_found (backend.find_build id s)
        (λ build s.
          permitted (backend.permissions build.repository_id user s).exec
            (rendered (backend.stop_build build.id)) s)
        s)

  unfoldable pub handle_restart : ℕ → Body ℕ → Handler S (Unit {0})
  handle_restart user body = with_body body (λ id s.
      or_render not_found (backend.find_build id s)
        (λ build s.
          permitted (backend.permissions build.repository_id user s).exec
            (rendered (backend.restart_build build.id)) s)
        s)

  abbrev pub restarted : ℕ → Handler S (Unit {0})
  restarted id s =
      or_render not_found (backend.find_job id s) (λ job. rendered (backend.next job)) s

  -- The permissions are asked for with the key of the job.
  unfoldable pub handle_restart_job : ℕ → Body ℕ → Handler S (Unit {0})
  handle_restart_job user body =
      with_body body (λ id s. permitted (backend.permissions id user s).exec (restarted id) s)

  -- for _, job := range jobs { if err := scheduler.Next(job); err != nil { … return } }
  unfoldable pub next_each : List Job → Effect S (Unit {0})
  next_each [] = pure tt
  next_each (job ∷ jobs) = backend.next job >> next_each jobs

  -- No permission is asked for but what the store asks for. The broadcast of the build is left out.
  unfoldable pub handle_trigger : ℕ → Body TriggerForm → Handler S (Unit {0})
  unfolding trigger_opts next_each
  handle_trigger user body = with_body body (λ f s.
      or_render_after server_error (backend.trigger (trigger_opts f user) s)
        (λ jobs s. or_render_after server_error (next_each jobs s) render_json))
