-- ===== src/Scheduler/Ops/Queueing.antt =====
-- What `Next` and the loop of server/scheduler/scheduler.go do to the queue.
use abstruse.Prelude.{
  ℕ, ◌+◌, ◌≡◌, refl, ap, ◌∙◌, Bool, true, false, not, String, List, [], ◌∷◌, ◌++◌, Option, none,
  some, arith, count, count-append, keep, if◌then◌else◌,
}
use abstruse.Core.{Job}
use abstruse.Scheduler.Builds.{Services}
use abstruse.Scheduler.Queue.{enqueue_job}
use abstruse.Scheduler.Queue.Laws.{has_id, remove_job-keep}
use abstruse.Scheduler.Workers.{find_worker}
use abstruse.Scheduler.State.{Run, dispatched, started, Scheduler}
use abstruse.Scheduler.Ops.{next, process, dispatch, tick, as_queued}
use abstruse.Scheduler.Ops.Invariant.{Inv}
use abstruse.Scheduler.Ops.Effects.{next_queue}

-- Where no id is queued twice, `Next` leaves one entry of the job's id in the queue, the job itself,
-- reset and at the end; the jobs of other ids keep their order.
pub next-keep :
    {S : Type 0} (svc : Services S) (red : String → String) (job : Job) (now : ℕ) (b : Bool)
    (s : Scheduler S)
    → Inv s
    → (next svc red job now b s).queued
      ≡ keep (λ j. not (has_id job.id j)) s.queued ++ as_queued job ∷ []
next-keep svc red job now b s h =
    next_queue svc red job now b s
    ∙ ap (λ q. q ++ as_queued job ∷ []) (remove_job-keep job.id s.queued (h.once job.id))

abbrev pub run_job : Run → Job
run_job (dispatched j p) = j
run_job (started j p) = j

module _ {S : Type 0} where
  -- The jobs of an id that wait in the queue or that a goroutine holds.
  abbrev pub held : ℕ → Scheduler S → ℕ
  held id s = count (has_id id) s.queued + count (λ r. has_id id (run_job r)) s.runs

  held-dispatch :
      (id : ℕ) (o : Option ℕ) (q : List Job) (s : Scheduler S)
      → s.queued ≡ q
      → held id (dispatch o (enqueue_job q) s) ≡ held id s
  unfolding enqueue_job
  held-dispatch id none [] s e = refl
  held-dispatch id none (j ∷ q) s e = refl
  held-dispatch id (some p) [] s e = refl
  held-dispatch id (some p) (j ∷ q) s e =
      rw (e, count-append (λ r. has_id id (run_job r)) s.runs (dispatched j p ∷ [])) (ground arith)

  when_held :
      (id n : ℕ) (b : Bool) (x y : Scheduler S)
      → held id x ≡ n
      → held id y ≡ n
      → held id (if b then x else y) ≡ n
  when_held id n true x y h k = h
  when_held id n false x y h k = k

  either_held :
      {E : Type 0} (id n : ℕ) (b : Bool) (x y : Scheduler S × E)
      → held id x.0 ≡ n
      → held id y.0 ≡ n
      → held id (if b then x else y).0 ≡ n
  either_held id n true x y h k = h
  either_held id n false x y h k = k

  held-process : (id : ℕ) (s : Scheduler S) → held id (process s).0 ≡ held id s
  unfolding process
  held-process id s =
      either_held id (held id s) s.paused _ _ refl
        (held-dispatch id (find_worker s.heap s.registry) s.queued s refl)

  -- A round of the loop loses no job and makes none up, whether it is paused, finds no worker or hands
  -- a job over: for every id, the jobs queued and the jobs in hand are as many as before.
  pub held-tick : (id : ℕ) (s : Scheduler S) → held id (tick s) ≡ held id s
  unfolding tick
  held-tick id s =
      when_held id (held id s) s.ready _ s (held-process id (record s { ready = false })) refl
