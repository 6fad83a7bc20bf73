-- ===== src/Pipeline/Stopped.antt =====
-- A build that a user stops, seen from the queue.
use abstruse.Prelude.{
  ℕ, ◌≡◌, refl, ap, subst, Bool, true, String, All, Option, none, some, Result, ok,
}
use abstruse.Core.{Perms, Build}
use abstruse.Gitscm.{GoScm}
use abstruse.Scheduler.Builds.{Services, FoundBuild, update_build_time}
use abstruse.Scheduler.Queue.{find_job}
use abstruse.Scheduler.State.{Scheduler}
use abstruse.Scheduler.Ops
use abstruse.Scheduler.Ops.Invariant.{Inv}
use abstruse.Scheduler.Ops.Emptied.{stop_all-gone}
use abstruse.Store.Builds.{Tables, Engines}
use abstruse.Api.Answer.{form, success, server_error, not_found, or_render_after, render_json}
use abstruse.Api.Answer.Spared.{or_render-success, permitted-success}
use abstruse.Api.Builds.{Backend, rendered, handle_stop}
use abstruse.Pipeline.Calls.{backend, or_error}

ended :
    {S : Type 0} (s t : Scheduler S) (r : S × Option String)
    → or_render_after {B = Unit {0}} server_error
        (or_error tt (record s { outside = r.0 }, r.1))
        render_json
      ≡ (success tt, t)
    → s.queued ≡ t.queued
ended s t (o, none) e = ap (λ p. p.1.queued) e
ended s t (o, some x) e = absurd (cc)

module _ {S : Type 0} (find_build : ℕ → S → Result Build) (permissions : ℕ → ℕ → S → Perms)
    (svc : Services S) (red : String → String) (engines : Engines) (go_scm : GoScm S)
    (tables : Tables S) (now : ℕ) (stopped : Bool) where
  abbrev pub calls : Backend (Scheduler S)
  calls = backend find_build permissions svc red engines go_scm tables now stopped

  stop_found-gone :
      (o : Option FoundBuild) (id : ℕ) (s t : Scheduler S)
      → Inv s
      → or_render_after server_error
          (or_error tt (Ops.stop_found svc red o id now stopped s))
          render_json
        ≡ (success tt, t)
      → (f : FoundBuild) × (o ≡ some f) × All (λ j. find_job j.id t.queued ≡ none) f.jobs
  stop_found-gone none id s t h e = absurd (cc)
  stop_found-gone (some f) id s t h e = (
    f,
    refl,
    subst (λ q. All (λ j. find_job j.id q ≡ none) f.jobs)
        (ended (Ops.stop_all svc red f.jobs now stopped s) t
          (update_build_time svc id (Ops.stop_all svc red f.jobs now stopped s).outside) e)
        (stop_all-gone svc red f.jobs now stopped s h.once),
  )

  -- With the scheduler as its argument, and where no id is queued twice: if the handler that stops a build
  -- answers with success, the build was found, the user may execute on its repository, and none of the jobs
  -- that the store of builds has for it is queued any more.
  pub handle_stop-Gone :
      (user id : ℕ) (sch t : Scheduler S)
      → Inv sch
      → handle_stop calls user (form id) sch ≡ (success tt, t)
      → (build : Build) × (f : FoundBuild) × (find_build id sch.outside ≡ ok build)
        × ((permissions build.repository_id user sch.outside).exec ≡ true)
        × (svc.find_build build.id sch.outside ≡ some f)
        × All (λ j. find_job j.id t.queued ≡ none) f.jobs
  unfolding handle_stop backend Ops.stop_build
  handle_stop-Gone user id sch t h e =
      let (build, found, e1) =
        or_render-success not_found (find_build id sch.outside) _ sch t (λ x n. absurd (cc)) e in
      let (may, e2) =
        permitted-success (permissions build.repository_id user sch.outside).exec
          (rendered calls (calls.stop_build build.id)) sch t e1 in
      let (f, there, gone) =
        stop_found-gone (svc.find_build build.id sch.outside) build.id sch t h e2 in
      (build, f, found, may, there, gone)
