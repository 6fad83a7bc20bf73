-- ===== src/Parser/Config.antt =====
-- server/parser/parser.go. YAML and regular expressions are third-party code and Go's engine: the
-- functions that stand for them are parameters. An error is the text that the source gives.
pub mod Jobs
pub mod Commands
pub mod Branches
use abstruse.Prelude.{
  ℕ, String, Char, Bool, true, false, List, [], ◌∷◌, ◌++◌, ◌&&◌, map, Option, none, some, join,
  str_eq, if◌then◌else◌,
}
use abstruse.Pb.{Command, CommandType}

pub record MatrixConfig : Type 0 where
  pub env : String
  pub image : String

pub record BranchesConfig : Type 0 where
  pub test : List String
  pub ignore : List String

pub record RepoConfig : Type 0 where
  pub image : String
  pub branches : BranchesConfig
  pub matrix : List MatrixConfig
  pub before_install : List String
  pub install : List String
  pub before_script : List String
  pub script : List String
  pub after_success : List String
  pub after_failure : List String
  pub before_deploy : List String
  pub deploy : List String
  pub after_deploy : List String
  pub after_script : List String
  pub cache : List String

pub record JobConfig : Type 0 where
  pub image : String
  pub env : List String
  pub mount : String
  pub stage : String
  pub title : String
  pub commands : List Command
  pub cache : List String

-- NewConfigParser gives the first four fields; `Parse` fills `parsed`.
pub record ConfigParser : Type 0 where
  pub raw : String
  pub branch : String
  pub parsed : RepoConfig
  pub env : List String
  pub mount : List String

abbrev pub job_stage_test : String
job_stage_test = "test"

abbrev pub job_stage_deploy : String
job_stage_deploy = "deploy"

unfoldable pub append_commands : List String → CommandType → List Command
append_commands cmds ctype = map (λ cmd. record { type = ctype; command = cmd }) cmds

unfoldable pub generate_commands : RepoConfig → List Command
generate_commands c =
    append_commands c.before_install CommandType.before_install
    ++ (append_commands c.install CommandType.install
        ++ (append_commands c.before_script CommandType.before_script
            ++ (append_commands c.script CommandType.script
                ++ (append_commands c.after_success CommandType.after_success
                    ++ (append_commands c.after_failure CommandType.after_failure
                        ++ append_commands c.after_script CommandType.after_script)))))

unfoldable pub generate_deploy_commands : RepoConfig → List Command
generate_deploy_commands c =
    append_commands c.before_deploy CommandType.before_deploy
    ++ (append_commands c.deploy CommandType.deploy
        ++ append_commands c.after_deploy CommandType.after_deploy)

-- The jobs made so far, and the error.
abbrev pub Parsed : Type 0
Parsed = List JobConfig × Option String

abbrev pub with_default : String → String → String
with_default s d = if str_eq s "" then d else s

-- A job of the matrix; its mounts are not set.
unfoldable pub matrix_job : ConfigParser → MatrixConfig → JobConfig
matrix_job c item = record {
  image = with_default item.image c.parsed.image;
  env = if str_eq item.env "" then c.env else c.env ++ item.env ∷ [];
  mount = "";
  stage = job_stage_test;
  title = with_default item.env (join c.parsed.script " ");
  commands = generate_commands c.parsed;
  cache = c.parsed.cache;
}

unfoldable pub single_job : ConfigParser → JobConfig
single_job c = record {
  image = c.parsed.image;
  env = c.env;
  mount = join c.mount ",";
  stage = job_stage_test;
  title = join c.parsed.script " ";
  commands = generate_commands c.parsed;
  cache = c.parsed.cache;
}

unfoldable pub deploy_job : ConfigParser → JobConfig
deploy_job c = record {
  image = c.parsed.image;
  env = c.env;
  mount = join c.mount ",";
  stage = job_stage_deploy;
  title = join c.parsed.deploy " ";
  commands = generate_deploy_commands c.parsed;
  cache = c.parsed.cache;
}

-- `if job.Image == "" { return jobs, … }; jobs = append(jobs, job)`
unfoldable pub add_job : List JobConfig → JobConfig → Parsed
add_job jobs job =
    if str_eq job.image "" then (jobs, some "image not specified") else (jobs ++ job ∷ [], none)

-- for _, item := range c.Parsed.Matrix
unfoldable pub matrix_loop : ConfigParser → List MatrixConfig → List JobConfig → Parsed
matrix_loop c [] jobs = (jobs, none)
matrix_loop c (item ∷ items) jobs =
    let (jobs', err) = add_job jobs (matrix_job c item) in
    elim err [ some e ↦ (jobs', some e) | none ↦ matrix_loop c items jobs' ]

pub test_jobs : ConfigParser → List MatrixConfig → Parsed
unfolding matrix_loop matrix_job single_job add_job generate_commands
test_jobs c [] = add_job [] (single_job c)
test_jobs c (item ∷ items) = matrix_loop c (item ∷ items) []

pub deploy_jobs : ConfigParser → List String → List JobConfig → Parsed
unfolding deploy_job add_job generate_deploy_commands append_commands
deploy_jobs c [] jobs = (jobs, none)
deploy_jobs c (cmd ∷ cmds) jobs = add_job jobs (deploy_job c)

abbrev pub then_deploy : ConfigParser → Parsed → Parsed
then_deploy c (jobs, some e) = (jobs, some e)
then_deploy c (jobs, none) = deploy_jobs c c.parsed.deploy jobs

pub parse_script : ConfigParser → List String → Parsed
unfolding test_jobs deploy_jobs
parse_script c [] = ([], some "script commands not specified")
parse_script c (cmd ∷ cmds) = then_deploy c (test_jobs c c.parsed.matrix)

abbrev pub after_unmarshal :
    ConfigParser → Option String → ConfigParser × List JobConfig × Option String
after_unmarshal c (some e) = (c, [], some e)
after_unmarshal c none = let (jobs, err) = parse_script c c.parsed.script in (c, jobs, err)

-- `unmarshal raw` is what yaml.Unmarshal leaves in the configuration, and its error.
module _ (unmarshal : String → RepoConfig × Option String) where
  unfoldable pub parse : ConfigParser → ConfigParser × List JobConfig × Option String
  unfolding parse_script
  parse c =
      if str_eq c.raw ""
      then (c, [], some "cannot parse empty config")
      else (let (parsed, err) = unmarshal c.raw in
          after_unmarshal (record c { parsed = parsed }) err)

abbrev pub is_empty {ℓ} : {A : Type ℓ} → List A → Bool
is_empty [] = true
is_empty (x ∷ xs) = false

-- `compile r` is `none` where regexp.Compile fails, and otherwise MatchString of the expression.
module _ (compile : String → Option (String → Bool)) where
  abbrev pub matches : String → String → Bool
  matches branch r = elim (compile r) [ none ↦ false | some match ↦ match branch ]

  -- The two loops: a pattern that does not compile is passed over; a match returns `answer`, and the
  -- end of the list goes on with `otherwise`.
  unfoldable pub first_match : String → List String → Bool → Bool → Bool
  first_match branch [] answer otherwise = otherwise
  first_match branch (r ∷ rs) answer otherwise =
      if matches branch r then answer else first_match branch rs answer otherwise

  unfoldable pub should_build : ConfigParser → Bool
  unfolding first_match
  should_build c =
      if is_empty c.parsed.branches.ignore && is_empty c.parsed.branches.test
      then true
      else first_match c.branch c.parsed.branches.ignore false
          (first_match c.branch c.parsed.branches.test true true)
