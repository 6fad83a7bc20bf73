-- ===== src/Tests/Storing.antt =====
-- The theorems on the stores of builds at concrete inputs: the outside is the list of the stored jobs.
use abstruse.Prelude.{
  ok_inj, ◌≡◌, refl, sym, ap, ◌∙◌, true, false, List, [], ◌∷◌, none, some, str_eq, Result, ok, err,
  ◌⊎◌, length, trim_prefix, for_each,
}
use abstruse.Core.{Build, Job}
use abstruse.Gitscm
use abstruse.Gitscm.{GoScm, Scm, Commit}
use abstruse.Webhook.Scm.{User, Reference}
use abstruse.Parser.Config.{RepoConfig, JobConfig, parse, should_build}
use abstruse.Parser.Env.{generate_global_env, pull_request_value, tag_value}
use abstruse.Webhook.GitHook.{pushed_branch}
use abstruse.Store.Builds.{Tables, Engines, TriggerBuildOpts, generate_build}
use abstruse.Store.Rows.{zero_build}
use abstruse.Store.Builds.Stored.{columns, FindsCreated, AcceptsBuild, Created}
use abstruse.Store.Builds.Generated.{Reads, generate_build-Created, generate_build-AcceptsBuild}
use abstruse.Tests.Data.{repository}
use abstruse.Tests.Parsing.{config}
use abstruse.Tests.Hooks.{hook}

abbrev small : RepoConfig
small = record config { matrix = []; deploy = [] }

abbrev pub engines : Engines
engines = record {
  unmarshal = λ raw. (small, none);
  compile = λ r. some (λ b. str_eq b r);
  order = λ xs. xs;
}

abbrev user : User
user = record { login = "jan"; name = "Jan"; email = ""; avatar = "" }

abbrev commit : Commit
commit = record { sha = "c0ffee"; link = ""; message = "fix"; author = user; committer = user }

abbrev reference : Reference
reference = record { name = "master"; path = "refs/heads/master"; sha = "c0ffee" }

abbrev pub go_scm : {S : Type 0} → GoScm S
go_scm = record {
  accepts = λ kind url. true;
  list_commits = λ scm repo branch s. ok (commit ∷ []);
  request_commits = λ scm path s. ok [];
  find_commit = λ scm repo ref s. ok commit;
  find_branch = λ scm repo name s. ok reference;
  find_content = λ scm repo ref path s. ok "image: golang";
  list_content = λ scm repo ref path s. ok [];
  list_hooks = λ scm repo s. ok [];
  create_hook = λ scm repo input s. (err "", s);
  delete_hook = λ scm repo id s. (ok tt, s);
  create_status = λ scm repo sha input s. (ok tt, s);
  is_pull_request = λ ref. false;
  is_tag = λ ref. false;
  is_branch = λ ref. true;
}

abbrev last_row : List Job → Result Job
last_row [] = err "record not found"
last_row (j ∷ js) = ok j

abbrev pub tables : Tables (List Job)
tables = record {
  now = λ rows. 12;
  find_repo = λ id user_id rows. ok repository;
  create_build = λ b rows. (ok 5, rows);
  create_job = λ j rows. (ok (length rows), record j { id = length rows } ∷ rows);
  find_job = λ id rows. last_row rows;
  marshal = λ cs. ok "[]";
}

finds : FindsCreated tables
finds row j id s t e f = sym (ap columns (ok_inj (ap last_row (ap (λ r. r.1) e) ∙ f)))

-- The row that is stored for the one job of the configuration.
abbrev stored : Job
stored = record {
  id = 0;
  commands = "[]";
  image = "golang";
  env =
      "ABSTRUSE_REF=refs/heads/master ABSTRUSE_BRANCH=master ABSTRUSE_COMMIT=c1 ABSTRUSE_PULL_REQUEST=false ABSTRUSE_TAG=false";
  mount = "";
  start_time = none;
  end_time = none;
  status = "";
  log = "";
  stage = "test";
  cache = "";
  build = zero_build;
  build_id = 5;
}

generates :
    generate_build engines go_scm tables repository hook [] ≡ (ok (stored ∷ [], 5), stored ∷ [])
unfolding generate_build Gitscm.new Gitscm.find_branch Gitscm.find_content pushed_branch parse
    should_build trim_prefix for_each generate_global_env pull_request_value tag_value
generates = refl

generate_build-Created_example :
    (build : Build) × (pjobs : List JobConfig) × Reads {S = List Job} go_scm repository hook []
      build
    × AcceptsBuild engines repository build hook.target pjobs
    × Created tables repository build pjobs [] (stored ∷ []) 5
generate_build-Created_example =
    generate_build-Created engines go_scm tables finds repository hook [] generates

generate_build-AcceptsBuild_example :
    ((generate_build engines go_scm tables repository hook []).1 ≡ [])
    ⊎ ((build : Build) × (pjobs : List JobConfig) × Reads {S = List Job} go_scm repository hook []
          build
        × AcceptsBuild engines repository build hook.target pjobs)
generate_build-AcceptsBuild_example =
    generate_build-AcceptsBuild engines go_scm tables repository hook []

abbrev opts : TriggerBuildOpts
opts = record { id = 7; config = "image: golang"; sha = "c0ffee"; branch = "master"; user_id = 1 }

-- A build of the branch "master" that the user names: its environment has no branch.
abbrev triggered : Job
triggered = record stored {
  env =
      "ABSTRUSE_REF=refs/heads/master ABSTRUSE_BRANCH= ABSTRUSE_COMMIT=c0ffee ABSTRUSE_PULL_REQUEST=false ABSTRUSE_TAG=false";
}
