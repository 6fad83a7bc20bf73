-- ===== src/Pipeline/Manual.antt =====
-- A build that a user triggers, seen from the queue.
use abstruse.Prelude.{
  ℕ, ◌≡◌, ◌⊎◌, inl, inr, refl, ap, ◌∙◌, String, Bool, List, [], ◌∷◌, Result, ok, err, panic, Effect,
  and_run,
}
use abstruse.Core.{Perms, Build, Job, Repository}
use abstruse.Gitscm.{GoScm}
use abstruse.Scheduler.Builds.{Services}
use abstruse.Scheduler.State.{Scheduler}
use abstruse.Scheduler.Ops
use abstruse.Scheduler.Ops.Invariant.{Inv, next-Inv}
use abstruse.Scheduler.Ops.Queueing.{next-keep}
use abstruse.Store.Builds.{Tables, Engines, trigger_build}
use abstruse.Api.Answer.{
  Handler, Answer, form, success, server_error, crashed, or_render_after, render_json,
}
use abstruse.Api.Answer.Spared.{Spares}
use abstruse.Api.Builds.{Backend, TriggerForm, trigger_opts, next_each, handle_trigger}
use abstruse.Pipeline.Queue.{arrive}
use abstruse.Pipeline.Calls.{backend, on_outside}

-- What becomes of the queue, and the answer, by what the store of builds gives.
abbrev pub triggered : Result (List Job) → List Job → List Job × Answer (Unit {0})
triggered (ok jobs) queue = (arrive jobs queue, success tt)
triggered (err e) queue = (queue, server_error e)
triggered panic queue = (queue, crashed)

abbrev pub seen : {S : Type 0} → Answer (Unit {0}) × Scheduler S → List Job × Answer (Unit {0})
seen (answer, sch) = (sch.queued, answer)

found-Spares :
    {S : Type 0} (sch : Scheduler S) (r : Result Repository) (k : Repository → Effect S (List Job))
    (h : List Job → Handler (Scheduler S) (Unit {0}))
    → ((or_render_after server_error (on_outside sch (and_run (r, sch.outside) k)) h).1 ≡ sch)
      ⊎ ((repo : Repository) × (r ≡ ok repo))
found-Spares sch (ok repo) k h = inr (repo, refl)
found-Spares sch (err e) k h = inl refl
found-Spares sch panic k h = inl refl

module _ {S : Type 0} (find_build : ℕ → S → Result Build) (permissions : ℕ → ℕ → S → Perms)
    (svc : Services S) (red : String → String) (engines : Engines) (go_scm : GoScm S)
    (tables : Tables S) (now : ℕ) (stopped : Bool) where
  abbrev pub calls : Backend (Scheduler S)
  calls = backend find_build permissions svc red engines go_scm tables now stopped

  next_each-arrive :
      (jobs : List Job) (sch : Scheduler S)
      → Inv sch
      → seen (or_render_after server_error (next_each calls jobs sch) render_json)
        ≡ (arrive jobs sch.queued, success tt)
  unfolding next_each backend
  next_each-arrive [] sch h = refl
  next_each-arrive (job ∷ jobs) sch h =
      next_each-arrive jobs (Ops.next svc red job now stopped sch)
        (next-Inv svc red job now stopped sch h)
      ∙ ap (λ q. (arrive jobs q, success tt)) (next-keep svc red job now stopped sch h)

  triggered_from :
      (sch : Scheduler S) (r : Result (List Job) × S)
      → Inv sch
      → seen (
          or_render_after server_error
            (on_outside sch r)
            (λ jobs s. or_render_after server_error (next_each calls jobs s) render_json))
        ≡ triggered r.0 sch.queued
  triggered_from sch (ok jobs, s) h =
      next_each-arrive jobs (record sch { outside = s })
        (record { once = h.once; counted = h.counted })
  triggered_from sch (err e, s) h = refl
  triggered_from sch (panic, s) h = refl

  -- With the store of builds and the scheduler as its arguments, the handler that triggers a build refines a
  -- queue: where no id is queued twice, the jobs that the store gives for the form and the user stand at the
  -- end of the queue, each once, waiting and in order, in place of the entries of their ids, and the answer
  -- is a success; where the store gives an error, the queue is as before and the answer is the error.
  pub handle_trigger-triggered :
      (user : ℕ) (f : TriggerForm) (sch : Scheduler S)
      → Inv sch
      → seen (handle_trigger calls user (form f) sch)
        ≡ triggered
            (trigger_build engines go_scm tables (trigger_opts f user) sch.outside).0
            sch.queued
  unfolding handle_trigger backend
  handle_trigger-triggered user f sch h =
      triggered_from sch (trigger_build engines go_scm tables (trigger_opts f user) sch.outside) h

  -- Nothing changes unless the store finds the repository of the form for the user. No right to execute is
  -- asked for.
  handle_trigger-Spares :
      (user : ℕ) (f : TriggerForm) (sch : Scheduler S)
      → Spares
          (handle_trigger calls user (form f))
          sch
          ((repo : Repository) × (tables.find_repo f.id user sch.outside ≡ ok repo))
  unfolding handle_trigger backend trigger_build trigger_opts
  handle_trigger-Spares user f sch = found-Spares sch (tables.find_repo f.id user sch.outside) _ _
