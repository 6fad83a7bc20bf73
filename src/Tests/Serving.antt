-- ===== src/Tests/Serving.antt =====
-- The theorems on the worker's server and on the handlers of the API at concrete inputs.
use abstruse.Prelude.{ℕ, String, true, false, List, [], ◌∷◌, none, ok}
use abstruse.Worker.Server.{Containers, Server, Event, start, fail, pulled, halt, run}
use abstruse.Worker.Server.Calls.{AllCalled, run-AllCalled}
use abstruse.Api.Answer.{form}
use abstruse.Api.Answer.Spared.{Spares}
use abstruse.Api.Builds.{Backend, handle_stop_job, handle_stop, handle_restart, handle_restart_job}
use abstruse.Api.Builds.Denied.{MayRunJob, MayRunBuild, MayRunNumber, handle-Spares}
use abstruse.Api.Env.{EnvRow, EnvBackend}
use abstruse.Tests.Data.{build, job, pb_job}

-- Docker is the list of the containers that were was_stopped.
abbrev containers : Containers (List String)
containers = record {
  exists = λ name was_stopped. false;
  stop = λ name was_stopped. (name ∷ was_stopped, none);
  run = λ name job env was_stopped. (was_stopped, none);
}

abbrev idle : Server (List String)
idle = record { jobs = []; calls = []; docker = []; sent = [] }

-- Two calls for one job: the first one fails and takes the key of the second one with it.
abbrev events : List Event
events = start pb_job ∷ start pb_job ∷ fail 0 ∷ pulled 0 ∷ halt pb_job ∷ []

run-AllCalled_example : AllCalled (run containers events idle)
run-AllCalled_example = run-AllCalled containers events idle tt

abbrev backend : Backend (List ℕ)
backend = record {
  find_job = λ id s. ok (job id "running" none none);
  find_build = λ id s. ok build;
  permissions = λ id user s. record { read = true; write = false; exec = false };
  trigger = λ opts s. (ok [], opts.id ∷ s);
  next = λ job s. (ok tt, job.id ∷ s);
  stop = λ id s. (ok true, id ∷ s);
  stop_build = λ id s. (ok tt, id ∷ s);
  restart_build = λ id s. (ok tt, id ∷ s);
}

handle-Spares_example :
    Spares (handle_stop_job backend 2 (form 5)) [] (MayRunJob backend 2 (form 5) [])
    × Spares (handle_stop backend 2 (form 5)) [] (MayRunBuild backend 2 (form 5) [])
    × Spares (handle_restart backend 2 (form 5)) [] (MayRunBuild backend 2 (form 5) [])
    × Spares (handle_restart_job backend 2 (form 5)) [] (MayRunNumber backend 2 (form 5) [])
handle-Spares_example = handle-Spares backend 2 (form 5) []

abbrev token : EnvRow
token = record { id = 1; key = "TOKEN"; value = "s3"; secret = true; repository_id = 7 }

abbrev env_backend : EnvBackend (List ℕ)
env_backend = record {
  permissions = λ id user s. record { read = true; write = false; exec = false };
  find = λ id s. ok token;
  list = λ id s. ok (token ∷ []);
  create = λ env s. (ok 2, s);
  update = λ env s. (ok tt, s);
  delete = λ env s. (ok tt, s);
}
