-- ===== src/Store/Builds.antt =====
-- `GenerateBuild`, `TriggerBuild` and `FindStatus` of server/store/build/build.go. The tables are
-- behind gorm, a parameter; the SCM client is the one of Gitscm, the parser the one of Parser.
pub mod Stored
pub mod Generated
pub mod Triggered
use abstruse.Prelude.{
  ℕ, String, Bool, true, false, not, List, [], ◌∷◌, ◌||◌, ◌&&◌, map, Option, none, some, cat, join,
  str_eq, ◌==◌, if◌then◌else◌, Result, Effect, pure, raise, reads, gets, lift, raise_if, ◌>>=◌,
  ◌>>◌, for_each,
}
use abstruse.Core.{Repository, Mount, Build, Job, GitHook}
use abstruse.Pb.{Command}
use abstruse.Webhook.Scm.{User}
use abstruse.Gitscm
use abstruse.Gitscm.{GoScm, Scm, Commit}
use abstruse.Parser.Config.{
  RepoConfig, ConfigParser, BranchesConfig, JobConfig, parse, should_build,
}
use abstruse.Parser.Env.{generate_global_env}
use abstruse.Store.Rows.{zero_build, zero_job}

-- The tables, the clock and protojson.Marshal. `find_repo` is RepositoryStore.Find; a create gives the
-- key of the new row.
pub record Tables (S : Type 0) : Type 0 where
  pub now : S → ℕ
  pub find_repo : ℕ → ℕ → S → Result Repository
  pub create_build : Build → Effect S ℕ
  pub create_job : Job → Effect S ℕ
  pub find_job : ℕ → S → Result Job
  pub marshal : List Command → Result String

-- yaml.Unmarshal, regexp.Compile and the order of a map, as the parser takes them.
pub record Engines : Type 0 where
  pub unmarshal : String → RepoConfig × Option String
  pub compile : String → Option (String → Bool)
  pub order : List (String × String) → List (String × String)

pub record TriggerBuildOpts : Type 0 where
  pub id : ℕ
  pub config : String
  pub sha : String
  pub branch : String
  pub user_id : ℕ

-- fmt.Sprintf("%s:%s", mount.Host, mount.Container)
unfoldable pub mount_specs : List Mount → List String
mount_specs ms = map (λ m. cat m.host (cat ":" m.container)) ms

abbrev no_config : RepoConfig
no_config = record {
  image = "";
  branches = record { test = []; ignore = [] };
  matrix = [];
  before_install = [];
  install = [];
  before_script = [];
  script = [];
  after_success = [];
  after_failure = [];
  before_deploy = [];
  deploy = [];
  after_deploy = [];
  after_script = [];
  cache = [];
}

-- `commit` is the last commit of the branch, asked for where the hook does not name one.
unfoldable pub needs_commit : GitHook → Bool
needs_commit base = str_eq base.after "" || (str_eq base.message "" && base.pr_number == 0)

unfoldable pub with_commit : GitHook → Commit → GitHook
with_commit base commit = record base {
  after = if str_eq base.after "" then commit.sha else base.after;
  message = if str_eq base.message "" then commit.message else base.message;
}

unfoldable pub hook_build : Repository → GitHook → String → String → ℕ → Build
hook_build repo base reference content now = record zero_build {
  branch = base.target;
  ref = reference;
  commit = base.after;
  commit_message = base.message;
  pr = base.pr_number;
  pr_title = base.pr_title;
  config = content;
  author_login = base.author_login;
  author_name = base.author_name;
  author_email = base.author_email;
  author_avatar = base.author_avatar;
  committer_login = base.sender_login;
  committer_name = base.sender_name;
  committer_email = base.sender_email;
  committer_avatar = base.sender_avatar;
  repository_id = repo.id;
  start_time = some now;
}

-- The job that is stored for a job of the configuration.
unfoldable pub job_row : List String → ℕ → JobConfig → String → Job
job_row mnts build_id j commands = record zero_job {
  image = j.image;
  commands = commands;
  env = join j.env " ";
  stage = j.stage;
  build_id = build_id;
  mount = join mnts ",";
  cache = join j.cache ",";
}

-- What TriggerBuild copies of a commit.
unfoldable pub commit_build : Build → Commit → Build
commit_build b commit = record b {
  commit = commit.sha;
  commit_message = commit.message;
  author_login = commit.author.login;
  author_name = commit.author.name;
  author_email = commit.author.email;
  author_avatar = commit.author.avatar;
  committer_login = commit.committer.login;
  committer_name = commit.committer.name;
  committer_email = commit.committer.email;
  committer_avatar = commit.committer.avatar;
}

abbrev pub ignored : String → String
ignored branch = cat "branch " (cat branch " is ignored or not marked to build in config")

module _ (engines : Engines) where
  unfoldable pub new_config_parser : Repository → Build → String → String → ConfigParser
  new_config_parser repo build content branch = record {
    raw = content;
    branch = branch;
    parsed = no_config;
    env = generate_global_env engines.order build;
    mount = mount_specs repo.mounts;
  }

  abbrev pub if_built :
      {S : Type 0}
      → String
      → ConfigParser × List JobConfig × Option String
      → Effect S (List JobConfig)
  if_built branch (c, pjobs, some e) = raise e
  if_built branch (c, pjobs, none) =
      raise_if (not (should_build engines.compile c)) (ignored branch) >> pure pjobs

  -- `Parse` and `ShouldBuild`
  unfoldable pub parse_config :
      {S : Type 0} → Repository → Build → String → String → Effect S (List JobConfig)
  unfolding new_config_parser
  parse_config repo build content branch =
      if_built branch (parse engines.unmarshal (new_config_parser repo build content branch))

module _ {S : Type 0} (tables : Tables S) where
  unfoldable pub store_job : List String → ℕ → JobConfig → Effect S Job
  unfolding job_row
  store_job mnts build_id j = do
    commands ← lift (tables.marshal j.commands)
    id ← tables.create_job (job_row mnts build_id j commands)
    reads (tables.find_job id)

  -- `s.Create(build)` and the loop over the jobs.
  unfoldable pub store_build : Repository → Build → List JobConfig → Effect S (List Job × ℕ)
  unfolding store_job mount_specs
  store_build repo build pjobs = do
    id ← tables.create_build build
    jobs ← for_each (store_job (mount_specs repo.mounts) id) pjobs
    pure (jobs, id)

module _ {S : Type 0} (engines : Engines) (go_scm : GoScm S) (tables : Tables S) where
  unfoldable pub complete : Scm → Repository → GitHook → Effect S GitHook
  unfolding with_commit needs_commit
  complete scm repo base =
      if needs_commit base
      then (do
        commit ← Gitscm.last_commit go_scm scm repo.full_name base.target
        pure (with_commit base commit))
      else pure base

  -- From the SCM provider to the build, before the configuration is parsed.
  unfoldable pub read_build : Repository → GitHook → Effect S Build
  unfolding complete hook_build
  read_build repo base = do
    scm ← Gitscm.new go_scm repo.provider.name repo.provider.url repo.provider.access_token
    ref ← Gitscm.find_branch go_scm scm repo.full_name base.target
    base' ← complete scm repo base
    content ← Gitscm.find_content go_scm scm repo.full_name base'.after ".abstruse.yml"
    now ← gets tables.now
    let reference = if not (base.pr_number == 0) then base.ref else ref.path
    pure (hook_build repo base' reference content now)

  unfoldable pub generate_build : Repository → GitHook → Effect S (List Job × ℕ)
  unfolding parse_config read_build store_build
  generate_build repo base = do
    build ← read_build repo base
    pjobs ← parse_config engines repo build build.config base.target
    store_build tables repo build pjobs

  abbrev pub wanted_branch : Repository → TriggerBuildOpts → String
  wanted_branch repo opts = if str_eq opts.branch "" then repo.default_branch else opts.branch

  -- The commit by `sha`, or the last one of the branch.
  unfoldable pub wanted_commit : Scm → Repository → String → String → Effect S Commit
  wanted_commit scm repo branch sha =
      if str_eq sha ""
      then Gitscm.last_commit go_scm scm repo.full_name branch
      else Gitscm.find_commit go_scm scm repo.full_name sha

  unfoldable pub wanted_content : Scm → Repository → String → String → Effect S String
  wanted_content scm repo sha content =
      if str_eq content ""
      then Gitscm.find_content go_scm scm repo.full_name sha ".abstruse.yml"
      else pure content

  -- The build up to `build.Config = content`; its branch is set only where none is given.
  unfoldable pub read_trigger : Repository → TriggerBuildOpts → Effect S Build
  unfolding wanted_commit wanted_content commit_build
  read_trigger repo opts = do
    scm ← Gitscm.new go_scm repo.provider.name repo.provider.url repo.provider.access_token
    let branch = wanted_branch repo opts
    ref ← Gitscm.find_branch go_scm scm repo.full_name branch
    commit ← wanted_commit scm repo branch opts.sha
    let sha = if str_eq opts.sha "" then commit.sha else opts.sha
    content ← wanted_content scm repo sha opts.config
    pure (record (commit_build zero_build commit) {
      branch = if str_eq opts.branch "" then repo.default_branch else "";
      ref = ref.path;
      config = content;
    })

  unfoldable pub trigger_build : TriggerBuildOpts → Effect S (List Job)
  unfolding parse_config read_trigger store_build
  trigger_build opts = do
    repo ← reads (tables.find_repo opts.id opts.user_id)
    build ← read_trigger repo opts
    pjobs ← parse_config engines repo build build.config (wanted_branch repo opts)
    now ← gets tables.now
    (jobs, id) ←
        store_build tables repo (record build { repository_id = repo.id; start_time = some now })
          pjobs
    pure jobs
