-- ===== src/Scheduler/Ops/Invariant.antt =====
-- What holds of the scheduler of server/scheduler/scheduler.go between two steps.
use abstruse.Prelude.{ℕ, ◌≡◌, sym, ap, subst, ◌∙◌, Bool, false, String, arith, count, ◌==◌}
use abstruse.Core.{Job}
use abstruse.Pb
use abstruse.Scheduler.Builds.{Services}
use abstruse.Scheduler.Queue.{remove_job}
use abstruse.Scheduler.Queue.Laws.{Once, count-remove_job_le, count-remove_job_self, Once-concat}
use abstruse.Scheduler.State.{Run, dispatched, started, Scheduler}
use abstruse.Scheduler.Ops.{next, as_queued}
use abstruse.Scheduler.Ops.Effects.{Frame, next_queue, next-Frame}

-- A goroutine that waits for the worker.
abbrev pub waits_for : ℕ → Run → Bool
waits_for p (dispatched job q) = false
waits_for p (started job q) = q == p

module _ {S : Type 0} where
  -- No id is queued twice, and each worker's `Running` counts the goroutines that wait for it.
  pub record Inv (s : Scheduler S) : Type 0 where
    pub once : Once s.queued
    pub counted : (p : ℕ) → (s.heap p).running ≡ count (waits_for p) s.runs

  Inv-Frame : (s t : Scheduler S) → Frame s t → Once t.queued → Inv s → Inv t
  Inv-Frame s t f o h = record {
    once = o;
    counted =
        λ p. ap (λ k. (k p).running) f.heap ∙ h.counted p ∙ ap (count (waits_for p)) (sym f.runs);
  }

module _ {S : Type 0} (svc : Services S) (red : String → String) where
  pub next-Inv :
      (job : Job) (now : ℕ) (b : Bool) (s : Scheduler S) → Inv s → Inv (next svc red job now b s)
  next-Inv job now b s h =
      Inv-Frame s (next svc red job now b s) (next-Frame svc red job now b s)
        (subst Once (sym (next_queue svc red job now b s)) (
          Once-concat (remove_job job.id s.queued) (as_queued job)
            (λ a. omega (arith, count-remove_job_le a job.id s.queued, h.once a))
            (count-remove_job_self job.id s.queued (h.once job.id))))
        h
