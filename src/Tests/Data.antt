-- ===== src/Tests/Data.antt =====
-- A repository, builds, jobs, a worker and an outside of one row each.
use abstruse.Prelude.{ℕ, true, false, String, List, [], ◌∷◌, Option, none, some, cat}
use abstruse.Core.{Provider, Repository, Build, Job}
use abstruse.Pb
use abstruse.Scheduler.Builds.{Services}
use abstruse.Scheduler.Workers.{Heap, Registry}
use abstruse.Scheduler.State.{Scheduler}

abbrev provider : Provider
provider = record {
  name = "github";
  url = "https://api.github.com";
  access_token = "token";
  secret = "s3";
  host = "";
}

abbrev pub repository : Repository
repository = record {
  id = 7;
  uid = "77";
  namespace = "bleenco";
  name = "abstruse";
  full_name = "bleenco/abstruse";
  private = false;
  use_ssh = false;
  url = "https://github.com/bleenco/abstruse";
  clone = "https://github.com/bleenco/abstruse.git";
  clone_ssh = "git@github.com:bleenco/abstruse.git";
  default_branch = "master";
  active = true;
  timeout = 0;
  ssh_private_key = "";
  user_id = 1;
  provider = provider;
  env_variables = [];
  mounts = [];
  perms = record { read = true; write = true; exec = true };
}

abbrev pub build : Build
build = record {
  id = 3;
  branch = "master";
  commit = "c0ffee";
  commit_message = "release";
  ref = "refs/tags/v1.2";
  pr = 0;
  pr_title = "";
  config = "";
  author_login = "jan";
  author_name = "Jan";
  author_email = "";
  author_avatar = "";
  committer_login = "jan";
  committer_name = "Jan";
  committer_email = "";
  committer_avatar = "";
  start_time = none;
  end_time = none;
  repository = repository;
  repository_id = 7;
}

abbrev pub job : ℕ → String → Option ℕ → Option ℕ → Job
job id status start end = record {
  id = id;
  commands = "[]";
  image = "golang";
  env = "A=1";
  mount = "";
  start_time = start;
  end_time = end;
  status = status;
  log = "";
  stage = "test";
  cache = "";
  build = build;
  build_id = 3;
}

abbrev pub pb_job : Pb.Job
pb_job = record {
  id = 1;
  build_id = 3;
  commands = [];
  image = "golang";
  url = "";
  provider_name = "github";
  provider_url = "";
  provider_token = "";
  env = [];
  ref = "";
  commit_sha = "c0ffee";
  branch = "master";
  repo_name = "abstruse";
  worker_id = "w1";
  log = "ok\r\n" ∷ [];
  status = "passing";
  ssh_url = "";
  cache = [];
  mount = [];
  ssh_private_key = "";
  ssh_clone = false;
}

-- The outside is the list of the rows that were saved, the last one first.
abbrev pub services : Services (List Job)
services = record {
  update_job = λ j rows. (j ∷ rows, none);
  find_job = λ id rows. (job id "queued" none none, none);
  find_build = λ id rows. some (record { build = build; jobs = rows });
  update_build = λ b rows. (rows, none);
  send_status = λ b state rows. (rows, none);
}

abbrev pub red : String → String
red s = cat "[31m" s

abbrev pub unmarshal_commands : String → List Pb.Command
unmarshal_commands s = []

-- Every worker has one place.
abbrev pub heap : Heap
heap p = record { id = "w1"; host_id = "host"; max = 1; running = 0 }

abbrev pub scheduler : List Job → Registry → Scheduler (List Job)
scheduler queued registry = record {
  ready = true;
  paused = false;
  queued = queued;
  pending = [];
  registry = registry;
  heap = heap;
  runs = [];
  outside = [];
}
