-- ===== src/Scheduler/Ops/Effects.antt =====
-- What `Stop` and `Next` of server/scheduler/scheduler.go do to the queue and leave alone.
use abstruse.Prelude.{
  ℕ, ◌≡◌, refl, sym, ap, subst, ◌∙◌, Bool, false, String, [], ◌∷◌, ◌++◌, Option, none, some,
  Option-cases, inl, inr,
}
use abstruse.Core.{Job}
use abstruse.Scheduler.Builds.{Services}
use abstruse.Scheduler.Queue.{find_job, remove_job}
use abstruse.Scheduler.Queue.Laws.{find_job_none, remove_job_absent}
use abstruse.Scheduler.Workers.{get_worker}
use abstruse.Scheduler.State.{JobType, Scheduler, lookup}
use abstruse.Scheduler.Ops.{stop, stop_queued, stop_pending, next, as_queued}

module _ {S : Type 0} where
  -- What a step leaves alone.
  pub record Frame (s t : Scheduler S) : Type 0 where
    pub heap : t.heap ≡ s.heap
    pub runs : t.runs ≡ s.runs

module _ {S : Type 0} (svc : Services S) (red : String → String) where
  stop_of_queued :
      (id now : ℕ) (b : Bool) (s : Scheduler S) (job : Job)
      → find_job id s.queued ≡ some job
      → stop svc red id now b s ≡ stop_queued svc red id job now s
  unfolding stop
  stop_of_queued id now b s job e = rw (e, stop)

  pub stop_of_pending :
      (id now : ℕ) (b : Bool) (s : Scheduler S) (j : JobType)
      → find_job id s.queued ≡ none
      → lookup id s.pending ≡ some j
      → stop svc red id now b s
        ≡ stop_pending svc red (get_worker s.heap s.registry j.pb.worker_id) id j now b s
  unfolding stop
  stop_of_pending id now b s j e f = rw (e, stop) (rw (f, stop))

  pub stop_of_unknown :
      (id now : ℕ) (b : Bool) (s : Scheduler S)
      → find_job id s.queued ≡ none
      → lookup id s.pending ≡ none
      → stop svc red id now b s ≡ (s, false, none)
  unfolding stop
  stop_of_unknown id now b s e f = rw (e, stop) (rw (f, stop))

  pending-Frame :
      (o : Option ℕ) (id now : ℕ) (b : Bool) (s : Scheduler S) (j : JobType)
      → let t = (stop_pending svc red o id j now b s).0 in (t.queued ≡ s.queued) × Frame s t
  pending-Frame none id now b s j = (refl, record { heap = refl; runs = refl })
  pending-Frame (some p) id now b s j = (refl, record { heap = refl; runs = refl })

  abbrev Cleared : ℕ → Scheduler S → Scheduler S × Bool × Option String → Type 0
  Cleared id s r = (r.0.queued ≡ remove_job id s.queued) × Frame s r.0

  -- `Stop` takes the id out of the queue, where it is there, and touches no worker.
  pub stop_queue :
      (id now : ℕ) (b : Bool) (s : Scheduler S) → Cleared id s (stop svc red id now b s)
  stop_queue id now b s = elim (Option-cases (find_job id s.queued)) [
    | inr (job, e) ↦
        subst (Cleared id s) (sym (stop_of_queued id now b s job e))
          (refl, record { heap = refl; runs = refl })
    | inl e ↦
        let absent = sym (remove_job_absent id s.queued (find_job_none id s.queued e)) in
        elim (Option-cases (lookup id s.pending)) [
          | inl f ↦
              subst (Cleared id s) (sym (stop_of_unknown id now b s e f))
                (absent, record { heap = refl; runs = refl })
          | inr (j, f) ↦
              let worker = get_worker s.heap s.registry j.pb.worker_id in
              let (same, frame) = pending-Frame worker id now b s j in
              subst (Cleared id s) (sym (stop_of_pending id now b s j e f)) (same ∙ absent, frame)
        ]
  ]

  pub next-Frame :
      (job : Job) (now : ℕ) (b : Bool) (s : Scheduler S) → Frame s (next svc red job now b s)
  unfolding next
  next-Frame job now b s =
      let f = (stop_queue job.id now b s).1 in record { heap = f.heap; runs = f.runs }

  -- After `Next` the job stands last in the queue, behind the others, which keep their order.
  pub next_queue :
      (job : Job) (now : ℕ) (b : Bool) (s : Scheduler S)
      → (next svc red job now b s).queued ≡ remove_job job.id s.queued ++ as_queued job ∷ []
  unfolding next
  next_queue job now b s = ap (λ q. q ++ as_queued job ∷ []) (stop_queue job.id now b s).0
