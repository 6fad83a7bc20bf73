-- ===== src/Worker/Server.antt =====
-- `StartJob` and `StopJob` of worker/app/server.go, with the map of the jobs that they share. Every call of
-- `StartJob` goes on by itself, so each stretch between two calls of the outside is one event; the
-- directory, the clone and the image are outside. Docker is a parameter on a state `D`.
pub mod Keys
pub mod Calls
use abstruse.Prelude.{
  ℕ, zero, suc, String, Bool, true, false, not, List, [], ◌∷◌, ◌++◌, ◌&&◌, Option, none, some, any,
  keep, map, cat, contains, ◌==◌, if◌then◌else◌,
}
use abstruse.Pb.{EnvVariable, JobResp, JobStatus, JobRespType}
use abstruse.Pb
use abstruse.Parser.Env.{decimal}

-- worker/docker: the running containers by their names.
pub record Containers (D : Type 0) : Type 0 where
  pub exists : String → D → Bool
  pub stop : String → D → D × Option String
  pub run : String → Pb.Job → List String → D → D × Option String

-- A call of `StartJob`: before the look at the map that follows the pull of the image, or after it.
pub record Call : Type 0 where
  pub job : Pb.Job
  pub checked : Bool

-- `jobs` are the keys of the map; `sent` are the messages that end a job, the last one at the end.
pub record Server (D : Type 0) : Type 0 where
  pub jobs : List ℕ
  pub calls : List Call
  pub docker : D
  pub sent : List JobResp

unfoldable pub container_name : Pb.Job → String
container_name job = cat "abstruse-job-" (decimal job.id)

unfoldable pub env_entries : Pb.Job → List String
env_entries job = map (λ e. cat e.key (cat "=" e.value)) job.env

-- The output of the container on its way to the server: each secret in turn is replaced by ten stars.
-- `replace_all` is strings.ReplaceAll.
unfoldable pub mask : (String → String → String → String) → List EnvVariable → String → String
mask replace_all [] out = out
mask replace_all (e ∷ es) out =
    mask replace_all es
      (if e.secret && contains out e.value then replace_all out e.value "**********" else out)

unfoldable pub holds : ℕ → List ℕ → Bool
holds id jobs = any (λ j. j == id) jobs

unfoldable pub delete : ℕ → List ℕ → List ℕ
delete id jobs = keep (λ j. not (j == id)) jobs

abbrev was_stopped : Option String → Bool
was_stopped none = true
was_stopped (some e) = false

abbrev has_got : Bool → Bool → Bool
has_got true b = b
has_got false b = not b

abbrev pub behind : Call → Option (Call × List Call) → Option (Call × List Call)
behind c none = none
behind c (some (d, rest)) = some (d, c ∷ rest)

-- The i-th call and the others.
unfoldable pub call_at : ℕ → List Call → Option (Call × List Call)
call_at i [] = none
call_at zero (c ∷ cs) = some (c, cs)
call_at (suc i) (c ∷ cs) = behind c (call_at i cs)

pub data Event : Type 0 where
  start : Pb.Job → Event
  fail : ℕ → Event
  pulled : ℕ → Event
  ran : ℕ → Event
  halt : Pb.Job → Event

module _ {D : Type 0} (containers : Containers D) where
  -- `if _, ok := s.jobs[job.Id]; ok { docker.StopContainer(name); delete(s.jobs, job.Id) }`
  unfoldable pub clean : Pb.Job → Server D → Server D
  unfolding holds delete
  clean job s =
      if holds job.id s.jobs
      then record s {
        jobs = delete job.id s.jobs;
        docker = (containers.stop (container_name job) s.docker).0;
      }
      else s

  -- The call up to the clone: it takes the place of another call for the job.
  unfoldable pub start_call : Pb.Job → Server D → Server D
  unfolding clean
  start_call job s =
      let s' = clean job s in
      record s' {
        jobs = job.id ∷ s'.jobs;
        calls = s'.calls ++ record { job = job; checked = false } ∷ [];
      }

  -- The deferred function, and the end of the call.
  unfoldable pub return_from : Call → List Call → Server D → Server D
  unfolding clean
  return_from c rest s = record (clean c.job s) { calls = rest }

  -- `return err` for a directory or a clone that failed.
  unfoldable pub clone_failed : Call → List Call → Server D → Server D
  unfolding return_from
  clone_failed c rest s = return_from c rest s

  -- `if !ok { return nil }`
  unfoldable pub check : Call → List Call → Server D → Server D
  unfolding holds return_from
  check c rest s =
      if not (holds c.job.id s.jobs)
      then return_from c rest s
      else record s { calls = record c { checked = true } ∷ rest }

  unfoldable pub done : Pb.Job → Option String → JobResp
  done job none = record {
    id = job.id;
    content = "";
    status = JobStatus.passing;
    type = JobRespType.done;
  }
  done job (some e) = record {
    id = job.id;
    content = "";
    status = JobStatus.failing;
    type = JobRespType.done;
  }

  -- `RunContainer`, the message about its end, and the return.
  unfoldable pub run_call : Call → List Call → Server D → Server D
  unfolding return_from
  run_call c rest s =
      let (docker, e) = containers.run (container_name c.job) c.job (env_entries c.job) s.docker in
      return_from c rest (record s { docker = docker; sent = s.sent ++ done c.job e ∷ [] })

  -- `StopJob` answers whether it was_stopped a container, and forgets the job in any case.
  unfoldable pub stop_job : Pb.Job → Server D → Server D × Bool
  unfolding delete
  stop_job job s =
      let name = container_name job in
      let (docker, e) = containers.stop name s.docker in
      let forgotten = delete job.id s.jobs in
      if containers.exists name s.docker
      then (record s { jobs = forgotten; docker = docker }, was_stopped e)
      else (record s { jobs = forgotten }, false)

  -- The event of a call that is there and has got as far.
  abbrev pub on_call :
      Option (Call × List Call)
      → Bool
      → (Call → List Call → Server D → Server D)
      → Server D
      → Server D
  on_call none checked f s = s
  on_call (some (c, rest)) checked f s = if has_got c.checked checked then f c rest s else s

  unfoldable pub step : Event → Server D → Server D
  unfolding start_call clone_failed check run_call stop_job call_at
  step (start job) s = start_call job s
  step (fail i) s = on_call (call_at i s.calls) false clone_failed s
  step (pulled i) s = on_call (call_at i s.calls) false check s
  step (ran i) s = on_call (call_at i s.calls) true run_call s
  step (halt job) s = (stop_job job s).0

  unfoldable pub run : List Event → Server D → Server D
  unfolding step
  run [] s = s
  run (e ∷ es) s = run es (step e s)
