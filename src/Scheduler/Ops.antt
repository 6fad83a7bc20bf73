-- ===== src/Scheduler/Ops.antt =====
-- The methods of the scheduler, server/scheduler/scheduler.go, and its loop. Each method is one step
-- here, and so is each half of `startJob`; the time, and what a worker's `StopJob` answers, are
-- arguments. An error is the text that the source gives.
pub mod Effects
pub mod Invariant
pub mod Queueing
pub mod Stopping
pub mod Emptied
pub mod Races
use abstruse.Prelude.{
  ℕ, ◌+◌, String, Bool, true, false, not, List, [], ◌∷◌, ◌++◌, Option, none, some, cat, join,
  length, if◌then◌else◌,
}
use abstruse.Core.{Job, Build}
use abstruse.Pb
use abstruse.Scheduler.Builds.{Services, pending, FoundBuild, save_job, tell, update_build_time}
use abstruse.Scheduler.Queue.{find_job, remove_job, enqueue_job}
use abstruse.Scheduler.Workers.{Registry, Heap, Worker, list, add, find_worker, get_worker}
use abstruse.Scheduler.Workers
use abstruse.Scheduler.State.{JobType, Run, dispatched, Scheduler, lookup, delete}
use abstruse.Scheduler.Start.{update, resume_run}

abbrev pub as_queued : Job → Job
as_queued job = record job { status = "queued"; log = ""; start_time = none; end_time = none }

abbrev pub as_failing : Job → ℕ → Job
as_failing job now = record job { status = "failing"; end_time = some now }

abbrev pub is_none : Option String → Bool
is_none none = true
is_none (some e) = false

-- core/scheduler.go
pub record SchedulerStats : Type 0 where
  pub queued : ℕ
  pub pending : ℕ
  pub workers : ℕ
  pub max : ℕ
  pub running : ℕ

sum : (ℕ → ℕ) → List ℕ → ℕ
sum f [] = 0
sum f (p ∷ ps) = f p + sum f ps

unfoldable pub stats : {S : Type 0} → Scheduler S → SchedulerStats
unfolding sum list
stats s = record {
  queued = length s.queued;
  pending = length s.pending;
  workers = length (list s.registry);
  max = sum (λ p. (s.heap p).max) (list s.registry);
  running = sum (λ p. (s.heap p).running) (list s.registry);
}

module _ {S : Type 0} where
  unfoldable pub pause : Scheduler S → Scheduler S
  pause s = record s { paused = true }

  unfoldable pub resume : Scheduler S → Scheduler S
  resume s = record s { paused = false; ready = true }

  unfoldable pub is_running : Scheduler S → Bool
  is_running s = not s.paused

  unfoldable pub job_log : ℕ → Scheduler S → String × Option String
  job_log id s = elim (lookup id s.pending) [
    | none ↦ ("", some "job not running")
    | some e ↦ (join e.pb.log "", none)
  ]

  -- `process`, with the worker found and the queue taken apart.
  abbrev pub dispatch : Option ℕ → Option (Job × List Job) → Scheduler S → Scheduler S
  dispatch none _ s = s
  dispatch (some p) none s = s
  dispatch (some p) (some (job, rest)) s = record s {
    queued = rest;
    runs = s.runs ++ dispatched job p ∷ [];
  }

  unfoldable pub process : Scheduler S → Scheduler S × Option String
  process s =
      if s.paused
      then (s, some "scheduler paused")
      else (dispatch (find_worker s.heap s.registry) (enqueue_job s.queued) s, none)

  -- One round of `run` that finds the channel ready.
  unfoldable pub tick : Scheduler S → Scheduler S
  tick s = if s.ready then (process (record s { ready = false })).0 else s

module _ {S : Type 0} (svc : Services S) (red : String → String) where
  abbrev pub stop_queued : ℕ → Job → ℕ → Scheduler S → Scheduler S × Bool × Option String
  stop_queued id job now s =
      let (o, err) =
        save_job svc (record (as_failing job now) { log = red "==> job stopped\r\n" }) s.outside in
      (record s { queued = remove_job id s.queued; outside = o }, is_none err, none)

  abbrev pub stop_pending :
      Option ℕ → ℕ → JobType → ℕ → Bool → Scheduler S → Scheduler S × Bool × Option String
  stop_pending worker id e now stopped s =
      let s' = record s {
        pending = delete id s.pending;
        outside = (save_job svc (as_failing e.job now) s.outside).0;
      } in
      elim worker [ none ↦ (s', false, some "worker not found") | some p ↦ (s', stopped, none) ]

  -- Whether a job was stopped, and the error. `stopped` is the worker's answer.
  unfoldable pub stop : ℕ → ℕ → Bool → Scheduler S → Scheduler S × Bool × Option String
  stop id now stopped s = elim (find_job id s.queued) [
    | some job ↦ stop_queued id job now s
    | none ↦ elim (lookup id s.pending) [
      | none ↦ (s, false, none)
      | some e ↦ stop_pending (get_worker s.heap s.registry e.pb.worker_id) id e now stopped s
    ]
  ]

  unfoldable pub next : Job → ℕ → Bool → Scheduler S → Scheduler S
  next job now stopped s =
      let s' = (stop job.id now stopped s).0 in
      record s' {
        ready = true;
        queued = s'.queued ++ as_queued job ∷ [];
        outside = tell svc job.build_id pending (save_job svc (as_queued job) s'.outside).0;
      }

  -- for _, job := range build.Jobs { job, _ := s.jobStore.Find(job.ID); s.Next(job) }
  unfoldable pub next_all : List Job → ℕ → Bool → Scheduler S → Scheduler S
  next_all [] now stopped s = s
  next_all (j ∷ js) now stopped s =
      next_all js now stopped (next (svc.find_job j.id s.outside).0 now stopped s)

  abbrev pub restart_saved :
      Option String → List Job → ℕ → Bool → Scheduler S → Scheduler S × Option String
  restart_saved (some e) jobs now stopped s = (s, some e)
  restart_saved none jobs now stopped s = (next_all jobs now stopped s, none)

  abbrev pub restart_found :
      Option FoundBuild → ℕ → Bool → Scheduler S → Scheduler S × Option String
  restart_found none now stopped s = (s, some "record not found")
  restart_found (some f) now stopped s =
      let (o, err) =
        svc.update_build (record (f.build) { start_time = none; end_time = none }) s.outside in
      restart_saved err f.jobs now stopped (record s { outside = o })

  unfoldable pub restart_build : ℕ → ℕ → Bool → Scheduler S → Scheduler S × Option String
  restart_build id now stopped s = restart_found (svc.find_build id s.outside) now stopped s

  -- The goroutines of `StopBuild`, in the order of the jobs.
  unfoldable pub stop_all : List Job → ℕ → Bool → Scheduler S → Scheduler S
  stop_all [] now stopped s = s
  stop_all (j ∷ js) now stopped s = stop_all js now stopped (stop j.id now stopped s).0

  abbrev pub stop_found :
      Option FoundBuild → ℕ → ℕ → Bool → Scheduler S → Scheduler S × Option String
  stop_found none id now stopped s = (s, some "record not found")
  stop_found (some f) id now stopped s =
      let s' = stop_all f.jobs now stopped s in
      let (o, err) = update_build_time svc id s'.outside in (record s' { outside = o }, err)

  unfoldable pub stop_build : ℕ → ℕ → Bool → Scheduler S → Scheduler S × Option String
  stop_build id now stopped s = stop_found (svc.find_build id s.outside) id now stopped s

-- What can happen next: a call of a method, a timer, a worker that comes or goes, or a goroutine of
-- `startJob` that goes on.
pub data Event : Type 0 where
  next_job : Job → ℕ → Bool → Event
  stop_job restart stop_jobs : ℕ → ℕ → Bool → Event
  pauses resumes timer ready : Event
  joins : ℕ → Event
  leaves : String → Event
  goes_on : ℕ → Pb.Job → Option String → ℕ → Event

module _ {S : Type 0} (svc : Services S) (red : String → String)
    (unmarshal : String → List Pb.Command) where
  unfoldable pub step : Scheduler S → Event → Scheduler S
  step s (next_job job now stopped) = next svc red job now stopped s
  step s (stop_job id now stopped) = (stop svc red id now stopped s).0
  step s (restart id now stopped) = (restart_build svc red id now stopped s).0
  step s (stop_jobs id now stopped) = (stop_build svc red id now stopped s).0
  step s pauses = pause s
  step s resumes = resume s
  step s timer = record s { ready = true }
  step s ready = tick s
  step s (joins p) = record s { registry = add s.heap p s.registry }
  step s (leaves key) = record s { registry = Workers.delete key s.registry }
  step s (goes_on i j err now) = resume_run svc red unmarshal i j err now s

  unfoldable pub run : Scheduler S → List Event → Scheduler S
  run s [] = s
  run s (e ∷ es) = run (step s e) es
