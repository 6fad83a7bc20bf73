-- ===== src/Scheduler/Start.antt =====
-- `startJob` of server/scheduler/scheduler.go, in the two halves on either side of the call of
-- `worker.StartJob`. Colours (aurora) and the JSON of the commands are third-party code: parameters.
use abstruse.Prelude.{
  ℕ, suc, ◌-◌, String, true, List, [], ◌∷◌, ◌++◌, Option, none, some, ◌==◌, cat, join, split,
  contains, if◌then◌else◌,
}
use abstruse.Core.{Job}
use abstruse.Pb
use abstruse.Scheduler.Builds.{Services, running, save_job, tell}
use abstruse.Scheduler.Queue.{remove_job}
use abstruse.Scheduler.Workers.{Worker, Heap}
use abstruse.Scheduler.Env.{job_envs, repo_envs}
use abstruse.Scheduler.State.{Run, dispatched, started, Scheduler, delete, insert, take_run}

abbrev pub update : Heap → ℕ → Worker → Heap
update h p w q = if q == p then w else h q

-- worker.Running++ and, deferred, worker.Running--
abbrev pub busier : Heap → ℕ → Heap
busier h p = update h p (record (h p) { running = suc (h p).running })

abbrev pub idler : Heap → ℕ → Heap
idler h p = update h p (record (h p) { running = (h p).running - 1 })

abbrev pub begun : Job → ℕ → Job
begun job now = record job { status = "running"; log = ""; start_time = some now; end_time = none }

unfoldable pub make_pb : (String → List Pb.Command) → Job → String → Pb.Job
make_pb unmarshal job worker_id = record {
  id = job.id;
  build_id = job.build_id;
  commands = unmarshal job.commands;
  image = job.image;
  url = repo.url;
  provider_name = repo.provider.name;
  provider_url = repo.provider.url;
  provider_token = repo.provider.access_token;
  env = job_envs job.env ++ repo_envs repo.env_variables;
  ref = job.build.ref;
  commit_sha = job.build.commit;
  branch = job.build.branch;
  repo_name = repo.full_name;
  worker_id = worker_id;
  log = [];
  status = "";
  ssh_url = repo.clone_ssh;
  cache = split job.cache ",";
  mount = split job.mount ",";
  ssh_private_key = repo.ssh_private_key;
  ssh_clone = repo.use_ssh;
}
  where
    open job.build use {repository as repo}

unfoldable pub job_timeout : Job → ℕ
job_timeout job = if job.build.repository.timeout == 0 then 3600 else job.build.repository.timeout

-- The line that an error of `worker.StartJob` adds to the log.
unfoldable pub error_line : (String → String) → String → String
error_line red err =
    if contains err "context deadline exceeded"
    then red "\r\n==> job timed out\r\n"
    else if contains err "context canceled"
    then red "\r\n==> job stopped\r\n"
    else red (cat "\r\n==> " (cat err "\r\n"))

-- The job after `worker.StartJob` returned `j` and an error or none.
unfoldable pub ended : (String → String) → Job → Pb.Job → Option String → ℕ → Job
unfolding error_line
ended red job j none now = record job {
  status = j.status;
  log = join j.log "";
  end_time = some now;
}
ended red job j (some err) now = record job {
  status = "failing";
  log = cat (join j.log "") (error_line red err);
  end_time = some now;
}

module _ {S : Type 0} (svc : Services S) (red : String → String)
    (unmarshal : String → List Pb.Command) where
  -- Up to the call of `worker.StartJob`.
  unfoldable pub start_job : Job → ℕ → List Run → ℕ → Scheduler S → Scheduler S
  start_job job p rest now s = record s {
    ready = true;
    queued = remove_job job.id s.queued;
    pending =
        insert job.id
          (record {
            job = job';
            pb = make_pb unmarshal job' (s.heap p).id;
            timeout = job_timeout job';
          })
          s.pending;
    heap = busier s.heap p;
    runs = started job' p ∷ rest;
    outside = tell svc job.build_id running (save_job svc job' s.outside).0;
  }
    where
      job' : Job
      job' = begun job now

  -- From the return of `worker.StartJob` on.
  unfoldable pub end_job :
      Job → ℕ → List Run → Pb.Job → Option String → ℕ → Scheduler S → Scheduler S
  end_job job p rest j err now s = record s {
    ready = true;
    pending = delete job.id s.pending;
    heap = idler s.heap p;
    runs = rest;
    outside = (save_job svc (ended red job j err now) s.outside).0;
  }

  -- The goroutine at place `i` goes on: it begins, or its call returns with the answer given.
  unfoldable pub run_on :
      Option (Run × List Run) → Pb.Job → Option String → ℕ → Scheduler S → Scheduler S
  run_on none j err now s = s
  run_on (some (dispatched job p, rest)) j err now s = start_job job p rest now s
  run_on (some (started job p, rest)) j err now s = end_job job p rest j err now s

  unfoldable pub resume_run : ℕ → Pb.Job → Option String → ℕ → Scheduler S → Scheduler S
  unfolding run_on
  resume_run i j err now s = run_on (take_run i s.runs) j err now s
