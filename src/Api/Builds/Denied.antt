-- ===== src/Api/Builds/Denied.antt =====
-- Who can stop and restart builds and jobs through server/api/build.
use abstruse.Prelude.{ℕ, ◌≡◌, inr, true, ok}
use abstruse.Core.{Build, Job}
use abstruse.Api.Answer.{Body, form}
use abstruse.Api.Answer.Spared.{Spares, with_body-Spares, or_render-Spares, permitted-Spares}
use abstruse.Api.Builds.{
  Backend, rendered, restarted, handle_stop_job, handle_stop, handle_restart, handle_restart_job,
}

module _ {S : Type 0} (backend : Backend S) where
  -- The body names a job, or a build, of a repository on which the user has the right to execute.
  abbrev pub MayRunJob : ℕ → Body ℕ → S → Type 0
  MayRunJob user body s =
      (id : ℕ) × (job : Job) × (body ≡ form id)
      × (backend.find_job id s ≡ ok job)
      × ((backend.permissions job.build.repository_id user s).exec ≡ true)

  abbrev pub MayRunBuild : ℕ → Body ℕ → S → Type 0
  MayRunBuild user body s =
      (id : ℕ) × (build : Build) × (body ≡ form id)
      × (backend.find_build id s ≡ ok build)
      × ((backend.permissions build.repository_id user s).exec ≡ true)

  -- The body names a number that is the key of a repository on which the user has the right to execute.
  abbrev pub MayRunNumber : ℕ → Body ℕ → S → Type 0
  MayRunNumber user body s =
      (id : ℕ) × (body ≡ form id) × ((backend.permissions id user s).exec ≡ true)

  -- Whatever the request is, stopping a job, stopping a build and restarting a build change nothing unless
  -- the user may execute on the repository of that job or build. Restarting a job changes nothing unless
  -- the user may execute on the repository whose key is the number of the job, which is another one.
  pub handle-Spares :
      (user : ℕ) (body : Body ℕ) (s : S)
      → Spares (handle_stop_job backend user body) s (MayRunJob user body s)
        × Spares (handle_stop backend user body) s (MayRunBuild user body s)
        × Spares (handle_restart backend user body) s (MayRunBuild user body s)
        × Spares (handle_restart_job backend user body) s (MayRunNumber user body s)
  unfolding handle_stop_job handle_stop handle_restart handle_restart_job
  handle-Spares user body s = (
    with_body-Spares _ body _ s (λ id e. or_render-Spares _ _ (backend.find_job id s) _ s (λ job f.
        permitted-Spares _ _ (rendered backend (backend.stop job.id)) s
          (λ p. inr (id, job, e, f, p)))),
    with_body-Spares _ body _ s (λ id e. or_render-Spares _ _ (backend.find_build id s) _ s (λ b f.
        permitted-Spares _ _ (rendered backend (backend.stop_build b.id)) s
          (λ p. inr (id, b, e, f, p)))),
    with_body-Spares _ body _ s (λ id e. or_render-Spares _ _ (backend.find_build id s) _ s (λ b f.
        permitted-Spares _ _ (rendered backend (backend.restart_build b.id)) s
          (λ p. inr (id, b, e, f, p)))),
    with_body-Spares _ body _ s
        (λ id e. permitted-Spares _ _ (restarted backend id) s (λ p. inr (id, e, p))),
  )
