-- ===== src/Store/Builds/Stored.antt =====
-- What `GenerateBuild` of server/store/build/build.go writes, and when.
use abstruse.Prelude.{
  join, ◌∙◌, sym, ℕ, String, ◌≡◌, refl, ap, subst, true, List, Option, none, some, ok, lift,
  for_each, and_run-ok, ok-injective, Pairwise, for_each-Pairwise, ReadsOnly, unless-ok,
  unless-ReadsOnly,
}
use abstruse.Core.{Repository, Build, Job}
use abstruse.Parser.Config.{ConfigParser, JobConfig, parse, should_build}
use abstruse.Store.Rows.{zero_job}
use abstruse.Store.Builds.{
  Tables, Engines, mount_specs, job_row, new_config_parser, ignored, if_built, parse_config,
  store_job, store_build,
}

-- The columns of a job that a store of a build writes.
abbrev pub columns : Job → Job
columns j = record zero_job {
  image = j.image;
  commands = j.commands;
  env = j.env;
  stage = j.stage;
  build_id = j.build_id;
  mount = j.mount;
  cache = j.cache;
}

-- First by the key of a row that was just created gives the columns of that row.
abbrev pub FindsCreated : {S : Type 0} → Tables S → Type 0
FindsCreated {S = S} tables =
    (row j : Job) (id : ℕ) (s t : S)
    → tables.create_job row s ≡ (ok id, t)
    → tables.find_job id t ≡ ok j
    → columns j ≡ columns row

-- The configuration of a build parses to these jobs, and the branch is one to build.
abbrev pub AcceptsBuild : Engines → Repository → Build → String → List JobConfig → Type 0
AcceptsBuild engines repo build branch pjobs =
    (c : ConfigParser) × (parse engines.unmarshal
        (new_config_parser engines repo build build.config branch)
      ≡ (c, pjobs, none))
    × (should_build engines.compile c ≡ true)

-- A stored job is the job of the configuration, with its commands as protojson.Marshal writes them, and
-- with the mounts of the repository.
abbrev pub StoresJob : {S : Type 0} → Tables S → List String → ℕ → JobConfig → Job → Type 0
StoresJob tables mnts id pjob job =
    (tables.marshal pjob.commands ≡ ok job.commands)
    × (job.image ≡ pjob.image)
    × (job.env ≡ join pjob.env " ")
    × (job.stage ≡ pjob.stage)
    × (job.cache ≡ join pjob.cache ",")
    × (job.mount ≡ join mnts ",")
    × (job.build_id ≡ id)

-- The build has been created under `id`, and its jobs are those of the configuration, in order.
abbrev pub Created :
    {S : Type 0} → Tables S → Repository → Build → List JobConfig → S → List Job → ℕ → Type 0
Created {S = S} tables repo build pjobs s jobs id =
    (t : S) × (tables.create_build build s ≡ (ok id, t))
    × Pairwise (StoresJob tables (mount_specs repo.mounts) id) pjobs jobs

module _ {S : Type 0} (tables : Tables S) (finds : FindsCreated tables) where
  store_job-StoresJob :
      (mnts : List String) (id : ℕ) (pjob : JobConfig) (job : Job) (s t : S)
      → store_job tables mnts id pjob s ≡ (ok job, t)
      → StoresJob tables mnts id pjob job
  unfolding store_job job_row
  store_job-StoresJob mnts id pjob job s t e =
      let (commands, s1, em, e1) = and_run-ok (lift (tables.marshal pjob.commands) s) _ e in
      let (key, s2, ec, e2) =
        and_run-ok (tables.create_job (job_row mnts id pjob commands) s1) _ e1 in
      let row = finds _ job key s1 s2 ec (ap (λ x. x.0) e2) in
      (
        ap (λ x. x.0) em ∙ ap ok (sym (ap (λ j. j.commands) row)),
        ap (λ j. j.image) row,
        ap (λ j. j.env) row,
        ap (λ j. j.stage) row,
        ap (λ j. j.cache) row,
        ap (λ j. j.mount) row,
        ap (λ j. j.build_id) row,
      )

  pub store_build-Created :
      (repo : Repository) (build : Build) (pjobs : List JobConfig) (s : S) {jobs : List Job}
      {id : ℕ} {t : S}
      → store_build tables repo build pjobs s ≡ (ok (jobs, id), t)
      → Created tables repo build pjobs s jobs id
  unfolding store_build
  store_build-Created repo build pjobs s e =
      let (key, s1, ec, e1) = and_run-ok (tables.create_build build s) _ e in
      let (js, s2, ej, e2) =
        and_run-ok (for_each (store_job tables (mount_specs repo.mounts) key) pjobs s1) _ e1 in
      let found =
        for_each-Pairwise (StoresJob tables (mount_specs repo.mounts) key) _
          (store_job-StoresJob (mount_specs repo.mounts) key) pjobs s1 ej in
      subst (λ p. Created tables repo build pjobs s p.0 p.1) (ok-injective e2) (s1, ec, found)

if_built-ok :
    {S : Type 0} (engines : Engines) (branch : String)
    (r : ConfigParser × List JobConfig × Option String) (s : S) {pjobs : List JobConfig} {t : S}
    → if_built engines branch r s ≡ (ok pjobs, t)
    → (c : ConfigParser) × (r ≡ (c, pjobs, none)) × (should_build engines.compile c ≡ true)
if_built-ok engines branch (c, pjobs, some e) s h = absurd (cc)
if_built-ok engines branch (c, pjobs, none) s h =
    let (builds, same) = unless-ok (should_build engines.compile c) (ignored branch) pjobs s h in
    (c, ap (λ l. (c, l, none)) same, builds)

if_built-ReadsOnly :
    {S : Type 0} (engines : Engines) (branch : String)
    (r : ConfigParser × List JobConfig × Option String)
    → ReadsOnly (if_built engines {S = S} branch r)
if_built-ReadsOnly engines branch (c, pjobs, some e) s = refl
if_built-ReadsOnly engines branch (c, pjobs, none) s =
    unless-ReadsOnly (should_build engines.compile c) (ignored branch) pjobs s

pub parse_config-AcceptsBuild :
    {S : Type 0} (engines : Engines) (repo : Repository) (build : Build) (branch : String) (s : S)
    {pjobs : List JobConfig} {t : S}
    → parse_config engines repo build build.config branch s ≡ (ok pjobs, t)
    → AcceptsBuild engines repo build branch pjobs
unfolding parse_config
parse_config-AcceptsBuild engines repo build branch s h = if_built-ok engines branch _ s h

pub parse_config-ReadsOnly :
    {S : Type 0} (engines : Engines) (repo : Repository) (build : Build) (content branch : String)
    → ReadsOnly (parse_config engines {S = S} repo build content branch)
unfolding parse_config
parse_config-ReadsOnly engines repo build content branch s = if_built-ReadsOnly engines branch _ s
