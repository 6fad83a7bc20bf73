-- ===== src/Scheduler/Ops/Emptied.antt =====
-- What `StopBuild` of server/scheduler/scheduler.go leaves in the queue.
use abstruse.Prelude.{
  ℕ, ◌≡◌, refl, sym, ap, subst, ◌∙◌, Bool, String, List, [], ◌∷◌, All, none, arith, count,
}
use abstruse.Core.{Job}
use abstruse.Scheduler.Builds.{Services}
use abstruse.Scheduler.Queue.{find_job, remove_job}
use abstruse.Scheduler.Queue.Laws.{has_id, Once, count-remove_job_le, count-remove_job_self}
use abstruse.Scheduler.State.{Scheduler}
use abstruse.Scheduler.Ops.{stop, stop_all}
use abstruse.Scheduler.Ops.Effects.{stop_queue}
use abstruse.Scheduler.Ops.Stopping.{find_job_absent}

-- The queue without the jobs of a list.
abbrev pub removed : List Job → List Job → List Job
removed [] queue = queue
removed (j ∷ js) queue = removed js (remove_job j.id queue)

removed-absent :
    (a : ℕ) (js queue : List Job)
    → count (has_id a) queue ≡ 0
    → count (has_id a) (removed js queue) ≡ 0
removed-absent a [] queue h = h
removed-absent a (j ∷ js) queue h =
    removed-absent a js (remove_job j.id queue) (omega (arith, count-remove_job_le a j.id queue, h))

remove_job-Once : (id : ℕ) (queue : List Job) → Once queue → Once (remove_job id queue)
remove_job-Once id queue h a = omega (arith, count-remove_job_le a id queue, h a)

removed-gone :
    (js queue : List Job) → Once queue → All (λ j. find_job j.id (removed js queue) ≡ none) js
removed-gone [] queue h = tt
removed-gone (j ∷ js) queue h = (
  find_job_absent j.id _
      (removed-absent j.id js (remove_job j.id queue) (count-remove_job_self j.id queue (h j.id))),
  removed-gone js (remove_job j.id queue) (remove_job-Once j.id queue h),
)

module _ {S : Type 0} (svc : Services S) (red : String → String) where
  pub stop_all-removed :
      (js : List Job) (now : ℕ) (stopped : Bool) (s : Scheduler S)
      → (stop_all svc red js now stopped s).queued ≡ removed js s.queued
  unfolding stop_all
  stop_all-removed [] now stopped s = refl
  stop_all-removed (j ∷ js) now stopped s =
      stop_all-removed js now stopped (stop svc red j.id now stopped s).0
      ∙ ap (removed js) (stop_queue svc red j.id now stopped s).0

  pub stop_all-gone :
      (js : List Job) (now : ℕ) (stopped : Bool) (s : Scheduler S)
      → Once s.queued
      → All (λ j. find_job j.id (stop_all svc red js now stopped s).queued ≡ none) js
  stop_all-gone js now stopped s h =
      subst (λ q. All (λ j. find_job j.id q ≡ none) js) (sym (stop_all-removed js now stopped s))
        (removed-gone js s.queued h)
