-- ===== src/Tests/Running.antt =====
-- The theorems on the worker at a concrete job.
use abstruse.Prelude.{ℕ, ◌+◌, ◌≡◌, refl, true, List, [], ◌∷◌, ◌++◌, none, keep}
use abstruse.Pb.{Command, install, script, after_success, after_failure}
use abstruse.Worker.Docker.{run_container, run_commands, create_container, build, exec_cmd}
use abstruse.Worker.Plan.{
  Docker, World, Task, is_main, is_success, cache_index, sort_commands, sort_loop,
}
use abstruse.Worker.Docker.Order.{one_or_none, last_of}
use abstruse.Parser.Config.{generate_commands, append_commands}
use abstruse.Worker.Docker.Generated.{texts, last_text, run_container-generate_commands}
use abstruse.Tests.Parsing.{config}
use abstruse.Worker.Docker.Success.{run_container_ran}

-- The outside counts the executions; each ends with the exit code 0.
abbrev docker : Docker ℕ
docker = record {
  connect = λ s. none;
  container_exists = λ name s. none;
  remove = λ id s. (s, none);
  create = λ name image cmd env mounts s. (s, "c1", none);
  start = λ id s. (s, none);
  is_running = λ id s. true;
  exec = λ id cmd env s. (s + 1, "out" ∷ [], "e1", none);
  exit_code = λ id s. (0, none);
  path_exists = λ p. true;
  download_cache = λ s. (s, none);
  save_cache = λ s. (s, "cache.tgz", none);
  file_size = λ f s. ("1 kB", none);
  upload_cache = λ f s. (s, none);
  yellow = λ s. s;
  red = λ s. s;
  green = λ s. s;
}

abbrev deps : Command
deps = record { type = install; command = "make deps" }

abbrev make : Command
make = record { type = script; command = "make" }

abbrev commands : List Command
commands =
    deps
    ∷ make
    ∷ record { type = after_success; command = "echo one" }
    ∷ record { type = after_success; command = "echo two" }
    ∷ record { type = after_failure; command = "echo failed" }
    ∷ []

abbrev task : Task
task = record {
  name = "abstruse-job-1";
  image = "golang";
  env = [];
  dir = "/tmp/x";
  commands = commands;
  cache = [];
  mount = [];
}

abbrev world : World ℕ
world = record { outside = 0; log = []; ran = [] }

no_error : (run_container docker task world).1 ≡ none
unfolding run_container create_container build sort_commands sort_loop run_commands exec_cmd
    cache_index
no_error = refl

run_container_ran_example :
    (run_container docker task world).0.ran
    ≡ ([] ++ keep is_main commands) ++ one_or_none (last_of (λ c. is_success c.type) commands none)
run_container_ran_example = run_container_ran docker task world no_error

abbrev configured : Task
configured = record task { commands = generate_commands config }

no_error_configured : (run_container docker configured world).1 ≡ none
unfolding run_container create_container build sort_commands sort_loop run_commands exec_cmd
    cache_index generate_commands append_commands
no_error_configured = refl

run_container-generate_commands_example :
    texts (run_container docker configured world).0.ran
    ≡ ([] ++ (("make deps" ∷ []) ++ ([] ++ (("make" ∷ "make test" ∷ []) ++ [])))) ++ last_text [] []
run_container-generate_commands_example =
    run_container-generate_commands docker config configured world refl refl no_error_configured
