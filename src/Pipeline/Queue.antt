-- ===== src/Pipeline/Queue.antt =====
-- A webhook's build seen from the queue: the handler, the store of builds and the scheduler together do
-- what a queue of jobs that takes the generated jobs in order does.
use abstruse.Prelude.{
  ℕ, ◌≡◌, refl, ap, ◌∙◌, String, Bool, not, List, [], ◌∷◌, ◌++◌, Option, keep, Result, ok, err,
  panic,
}
use abstruse.Core.{Repository, GitHook, Job}
use abstruse.Gitscm.{GoScm}
use abstruse.Scheduler.Builds.{Services}
use abstruse.Scheduler.State.{Scheduler}
use abstruse.Scheduler.Queue.Laws.{has_id}
use abstruse.Scheduler.Ops
use abstruse.Scheduler.Ops.{as_queued}
use abstruse.Scheduler.Ops.Invariant.{Inv, next-Inv}
use abstruse.Scheduler.Ops.Queueing.{next-keep}
use abstruse.Store.Builds.{Tables, Engines, generate_build}
use abstruse.Webhook.Handler.{Clients, Response, server_error, schedule, trigger}
use abstruse.Webhook.Handler
use abstruse.Pipeline.{as_triple, server}

-- The specification: a queue in which an arriving job takes the place of an entry with its id and stands
-- at the end, waiting.
abbrev pub arrive : List Job → List Job → List Job
arrive [] queue = queue
arrive (job ∷ jobs) queue =
    arrive jobs (keep (λ j. not (has_id job.id j)) queue ++ as_queued job ∷ [])

-- What becomes of the queue, and the answer, by what the store of builds gives.
abbrev pub expected : Result (List Job × ℕ) → List Job → List Job × Response
expected (ok (jobs, id)) queue = (arrive jobs queue, Handler.ok)
expected (err e) queue = (queue, server_error e)
expected panic queue = (queue, server_error "panic")

module _ {R S : Type 0} (clients : Clients R) (repositories : S → Option (List Repository))
    (find_uid : String → S → Option Repository) (svc : Services S) (red : String → String)
    (engines : Engines) (go_scm : GoScm S) (tables : Tables S) (now : ℕ) (stopped : Bool) where
  abbrev pub stores : Handler.Stores (Scheduler S)
  stores = server repositories find_uid svc red engines go_scm tables now stopped

  abbrev pub seen : Scheduler S × Response → List Job × Response
  seen (sch, answer) = (sch.queued, answer)

  schedule-arrive :
      (jobs : List Job) (sch : Scheduler S)
      → Inv sch
      → seen (schedule clients stores jobs sch) ≡ (arrive jobs sch.queued, Handler.ok)
  unfolding schedule server
  schedule-arrive [] sch h = refl
  schedule-arrive (job ∷ jobs) sch h =
      schedule-arrive jobs (Ops.next svc red job now stopped sch)
        (next-Inv svc red job now stopped sch h)
      ∙ ap (λ q. (arrive jobs q, Handler.ok)) (next-keep svc red job now stopped sch h)

  generated-expected :
      (sch : Scheduler S) (r : Result (List Job × ℕ) × S)
      → Inv sch
      → seen (Handler.generated clients stores (as_triple sch r)) ≡ expected r.0 sch.queued
  generated-expected sch (ok (jobs, id), s) h =
      schedule-arrive jobs (record sch { outside = s })
        (record { once = h.once; counted = h.counted })
  generated-expected sch (err e, s) h = refl
  generated-expected sch (panic, s) h = refl

  -- With the store of builds and the scheduler as its arguments, the webhook's handler refines a queue:
  -- where no id is queued twice, a build that it triggers leaves the queue as the specification says, with
  -- each generated job once, waiting, in order, behind the jobs of other ids; where no build is generated,
  -- the queue is as before and the answer is the error.
  pub trigger-expected :
      (repo : Repository) (hook : GitHook) (sch : Scheduler S)
      → Inv sch
      → seen (trigger clients stores repo hook sch)
        ≡ expected (generate_build engines go_scm tables repo hook sch.outside).0 sch.queued
  unfolding trigger server
  trigger-expected repo hook sch h =
      generated-expected sch (generate_build engines go_scm tables repo hook sch.outside) h
