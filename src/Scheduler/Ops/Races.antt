-- ===== src/Scheduler/Ops/Races.antt =====
-- Two interleavings of server/scheduler/scheduler.go that the locks do not rule out.
use mathlib.Core.List.{Memᴰ}
use abstruse.Prelude.{
  ℕ, ◌<◌, ◌≡◌, refl, sym, ap, subst, ◌∙◌, Bool, false, String, List, [], ◌∷◌, ◌++◌, Option, none,
  some, arith, if◌then◌else◌,
}
use abstruse.Core.{Job}
use abstruse.Pb
use abstruse.Scheduler.Builds.{Services}
use abstruse.Scheduler.Queue.{find_job, enqueue_job}
use abstruse.Scheduler.Workers.{find_worker}
use abstruse.Scheduler.Workers.Choice.{spare}
use abstruse.Scheduler.State.{Run, dispatched, started, Scheduler, lookup}
use abstruse.Scheduler.Start.{start_job, end_job, busier}
use abstruse.Scheduler.Ops.{process, dispatch, stop, job_log}
use abstruse.Scheduler.Ops.Effects.{stop_of_unknown}
use abstruse.Scheduler.Ops.Stopping.{lookup-delete_self}

process_go :
    {S : Type 0} (s : Scheduler S) (p : ℕ) (j : Job) (rest : List Job)
    → s.paused ≡ false
    → find_worker s.heap s.registry ≡ some p
    → s.queued ≡ j ∷ rest
    → process s ≡ (record s { queued = rest; runs = s.runs ++ dispatched j p ∷ [] }, none)
unfolding process enqueue_job
process_go s p j rest e f q =
    λ i. if e i then (s, some "scheduler paused") else (dispatch (f i) (enqueue_job (q i)) s, none)

job_log-none :
    {S : Type 0} (s : Scheduler S) (id : ℕ)
    → lookup id s.pending ≡ none
    → job_log id s ≡ ("", some "job not running")
unfolding job_log
job_log-none s id e = rw (e, job_log)

module _ {S : Type 0} (svc : Services S) (red : String → String)
    (unmarshal : String → List Pb.Command) where
  process_two :
      (s : Scheduler S) (p : ℕ) (j k : Job) (rest : List Job)
      → s.paused ≡ false
      → find_worker s.heap s.registry ≡ some p
      → s.queued ≡ j ∷ k ∷ rest
      → let t = (process (process s).0).0 in
        (t.runs ≡ (s.runs ++ dispatched j p ∷ []) ++ dispatched k p ∷ []) × (t.heap ≡ s.heap)
  process_two s p j k rest e f q =
      let one = process_go s p j (k ∷ rest) e f q in
      let s' = record s { queued = k ∷ rest; runs = s.runs ++ dispatched j p ∷ [] } in
      let two = ap (λ w. (process w.0).0) one ∙ ap (λ w. w.0) (process_go s' p k rest e f refl) in
      (ap (λ w. w.runs) two, ap (λ w. w.heap) two)

  -- With two jobs queued, a scheduler that is not paused and picks a worker with one free place hands it
  -- both, if the loop runs twice before the goroutine of the first has counted it; when both have begun,
  -- the worker runs more jobs than its maximum.
  pub overcommit :
      (s : Scheduler S) (p now : ℕ) (j k : Job) (rest : List Job) (r r' : List Run)
      → s.paused ≡ false
      → find_worker s.heap s.registry ≡ some p
      → spare s.heap p ≡ 1
      → s.queued ≡ j ∷ k ∷ rest
      → let t = (process (process s).0).0 in
        let u = start_job svc red unmarshal k p r' now (start_job svc red unmarshal j p r now t) in
        (t.runs ≡ (s.runs ++ dispatched j p ∷ []) ++ dispatched k p ∷ [])
        × ((u.heap p).max < (u.heap p).running)
  unfolding start_job
  overcommit s p now j k rest r r' e f one q =
      let (two, same) = process_two s p j k rest e f q in
      (
        two,
        subst (λ h. (busier (busier h p) p p).max < (busier (busier h p) p p).running) (sym same)
            (ground arith),
      )

  -- Two goroutines wait for the same job, which was restarted while it ran and is not queued. When the
  -- first of them ends, it takes the entry of the second out of the pending jobs: the second goes on,
  -- but its log cannot be read, and a call of `Stop` changes nothing and answers that it stopped nothing.
  pub late_end_unstoppable :
      (s : Scheduler S) (job job' : Job) (p q : ℕ) (rest : List Run) (j : Pb.Job)
      (err : Option String) (now : ℕ) (b : Bool)
      → job'.id ≡ job.id
      → Memᴰ (started job' q) rest
      → find_job job.id s.queued ≡ none
      → let t = end_job svc red unmarshal job p rest j err now s in
        (Memᴰ (started job' q) t.runs)
        × (job_log job'.id t ≡ ("", some "job not running"))
        × (stop svc red job'.id now b t ≡ (t, false, none))
  unfolding end_job
  late_end_unstoppable s job job' p q rest j err now b e m absent =
      let t = end_job svc red unmarshal job p rest j err now s in
      let gone : lookup job'.id t.pending ≡ none =
        ap (λ x. lookup x t.pending) e ∙ lookup-delete_self job.id s.pending in
      (
        m,
        job_log-none t job'.id gone,
        stop_of_unknown svc red job'.id now b t (ap (λ x. find_job x s.queued) e ∙ absent) gone,
      )
