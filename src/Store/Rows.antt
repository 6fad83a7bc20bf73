-- ===== src/Store/Rows.antt =====
-- The zero values of the structs of server/core that the stores start from. Go has a nil pointer where
-- a job's build is not loaded.
use abstruse.Prelude.{false, [], none}
use abstruse.Core.{Provider, Repository, Perms, Build, Job}

abbrev pub no_perms : Perms
no_perms = record { read = false; write = false; exec = false }

abbrev pub zero_provider : Provider
zero_provider = record { name = ""; url = ""; access_token = ""; secret = ""; host = "" }

abbrev pub zero_repository : Repository
zero_repository = record {
  id = 0;
  uid = "";
  namespace = "";
  name = "";
  full_name = "";
  private = false;
  use_ssh = false;
  url = "";
  clone = "";
  clone_ssh = "";
  default_branch = "";
  active = false;
  timeout = 0;
  ssh_private_key = "";
  user_id = 0;
  provider = zero_provider;
  env_variables = [];
  mounts = [];
  perms = no_perms;
}

abbrev pub zero_build : Build
zero_build = record {
  id = 0;
  branch = "";
  commit = "";
  commit_message = "";
  ref = "";
  pr = 0;
  pr_title = "";
  config = "";
  author_login = "";
  author_name = "";
  author_email = "";
  author_avatar = "";
  committer_login = "";
  committer_name = "";
  committer_email = "";
  committer_avatar = "";
  start_time = none;
  end_time = none;
  repository = zero_repository;
  repository_id = 0;
}

abbrev pub zero_job : Job
zero_job = record {
  id = 0;
  commands = "";
  image = "";
  env = "";
  mount = "";
  start_time = none;
  end_time = none;
  status = "";
  log = "";
  stage = "";
  cache = "";
  build = zero_build;
  build_id = 0;
}
