-- ===== src/Store/Builds/Generated.antt =====
-- `GenerateBuild` of server/store/build/build.go: a build is stored for an accepted configuration only,
-- and holds what the hook and the SCM provider say.
use abstruse.Prelude.{
  ℕ, ◌≡◌, ◌⊎◌, Bool-cases, inl, inr, refl, and_run-same, ap, subst, true, false, List, ok, reads,
  pure, ◌>>=◌, and_run-ok, ok-injective, ReadsOnly, >>=-ReadsOnly, reading-ok, reading-or,
  if-ReadsOnly, str_eq, if◌then◌else◌, Bool,
}
use abstruse.Core.{Repository, Build, Job, GitHook}
use abstruse.Gitscm
use abstruse.Gitscm.{GoScm, Scm, Commit}
use abstruse.Gitscm.Laws.{new-ReadsOnly, last_commit-ReadsOnly}
use abstruse.Parser.Config.{JobConfig}
use abstruse.Store.Builds.{
  Tables, Engines, needs_commit, with_commit, parse_config, complete, hook_build, read_build,
  generate_build,
}
use abstruse.Store.Builds.Stored.{
  FindsCreated, AcceptsBuild, Created, store_build-Created, parse_config-AcceptsBuild,
  parse_config-ReadsOnly,
}

-- The build is the hook's: of the repository, on the target branch, with the configuration that the
-- provider has for the build's commit, which is the hook's where the hook names one.
abbrev pub Reads : {S : Type 0} → GoScm S → Repository → GitHook → S → Build → Type 0
Reads go_scm repo base s build =
    (build.repository_id ≡ repo.id)
    × (build.branch ≡ base.target)
    × (build.pr ≡ base.pr_number)
    × ((str_eq base.after "" ≡ true) ⊎ (build.commit ≡ base.after))
    × ((scm : Scm) × (go_scm.find_content scm repo.full_name build.commit ".abstruse.yml" s
          ≡ ok build.config))

-- Only what the hook leaves out is filled in.
abbrev Keeps : GitHook → GitHook → Type 0
Keeps base base' =
    (base'.target ≡ base.target)
    × (base'.pr_number ≡ base.pr_number)
    × ((str_eq base.after "" ≡ true) ⊎ (base'.after ≡ base.after))

with_commit-Keeps : (base : GitHook) (commit : Commit) → Keeps base (with_commit base commit)
unfolding with_commit
with_commit-Keeps base commit = (
  refl,
  refl,
  elim (Bool-cases (str_eq base.after "")) [ inl e ↦ inl e | inr e ↦ inr (rw e refl) ],
)

completed_kept :
    {S : Type 0} (go_scm : GoScm S) (scm : Scm) (repo : Repository) (base : GitHook) (b : Bool)
    {base' : GitHook} (s : S) {t : S}
    → (if b
          then (Gitscm.last_commit go_scm scm repo.full_name base.target >>= λ commit.
              pure (with_commit base commit))
          else pure base)
        s
      ≡ (ok base', t)
    → Keeps base base'
completed_kept go_scm scm repo base true s e =
    let (commit, s1, _, e1) =
      and_run-ok (Gitscm.last_commit go_scm scm repo.full_name base.target s) _ e in
    subst (Keeps base) (ok-injective e1) (with_commit-Keeps base commit)
completed_kept go_scm scm repo base false s e =
    subst (Keeps base) (ok-injective e) (refl, refl, inr refl)

module _ {S : Type 0} (engines : Engines) (go_scm : GoScm S) (tables : Tables S) where
  complete-ReadsOnly :
      (scm : Scm) (repo : Repository) (base : GitHook)
      → ReadsOnly (complete engines go_scm tables scm repo base)
  unfolding complete
  complete-ReadsOnly scm repo base =
      if-ReadsOnly (needs_commit base) _ _
        (>>=-ReadsOnly _ _ (last_commit-ReadsOnly go_scm scm repo.full_name base.target)
          (λ a s. refl))
        (λ s. refl)

  read_build-ReadsOnly :
      (repo : Repository) (base : GitHook) → ReadsOnly (read_build engines go_scm tables repo base)
  unfolding read_build Gitscm.find_branch Gitscm.find_content
  read_build-ReadsOnly repo base s =
      let at = repo.full_name in
      and_run-same (Gitscm.new go_scm _ _ _ s) _ s (new-ReadsOnly go_scm _ _ _ s) (λ scm s.
        and_run-same (go_scm.find_branch scm at base.target s, s) _ s refl
          (λ ref s.
            and_run-same (complete engines go_scm tables scm repo base s) _ s
              (complete-ReadsOnly scm repo base s)
              (λ base' s.
                and_run-same (go_scm.find_content scm at base'.after ".abstruse.yml" s, s) _ s refl
                  (λ content s. refl))))

  complete_kept :
      (scm : Scm) (repo : Repository) (base : GitHook) {base' : GitHook} (s : S) {t : S}
      → complete engines go_scm tables scm repo base s ≡ (ok base', t)
      → Keeps base base'
  unfolding complete
  complete_kept scm repo base s e = completed_kept go_scm scm repo base (needs_commit base) s e

  read_build-Reads :
      (repo : Repository) (base : GitHook) (s t : S) (build : Build)
      → read_build engines go_scm tables repo base s ≡ (ok build, t)
      → Reads go_scm repo base s build
  unfolding read_build hook_build Gitscm.find_branch Gitscm.find_content
  read_build-Reads repo base s t build e =
      let p = repo.provider in
      let (scm, _, e1) =
        reading-ok (Gitscm.new go_scm p.name p.url p.access_token) _
          (new-ReadsOnly go_scm p.name p.url p.access_token) s e in
      let (ref, _, e2) =
        reading-ok (reads (go_scm.find_branch scm repo.full_name base.target)) _ (λ s. refl) s e1 in
      let (base', eb, e3) =
        reading-ok (complete engines go_scm tables scm repo base) _
          (complete-ReadsOnly scm repo base) s e2 in
      let (content, ec, e4) =
        reading-ok (reads (go_scm.find_content scm repo.full_name base'.after ".abstruse.yml")) _
          (λ s. refl) s e3 in
      let kept = complete_kept scm repo base s eb in
      subst (Reads go_scm repo base s) (ok-injective e4)
        (refl, kept.0, kept.1, kept.2, (scm, ap (λ r. r.0) ec))

  -- Where `GenerateBuild` succeeds, it has stored a build of the repository on the hook's target branch
  -- and commit, with the configuration that the provider has at that commit; this configuration parses,
  -- and marks the branch as one to build; and the jobs returned are the jobs that the parser makes of
  -- it, in order, each stored with its image, environment, stage, cache, commands and mounts under the
  -- id of the build. A row that was created is found by its key.
  pub generate_build-Created :
      (finds : FindsCreated tables) (repo : Repository) (base : GitHook) (s : S) {jobs : List Job}
      {id : ℕ} {t : S}
      → generate_build engines go_scm tables repo base s ≡ (ok (jobs, id), t)
      → (build : Build) × (pjobs : List JobConfig) × Reads go_scm repo base s build
        × AcceptsBuild engines repo build base.target pjobs
        × Created tables repo build pjobs s jobs id
  unfolding generate_build
  generate_build-Created finds repo base s e =
      let (build, eb, e1) =
        reading-ok (read_build engines go_scm tables repo base) _ (read_build-ReadsOnly repo base) s
          e in
      let (pjobs, ep, e2) =
        reading-ok (parse_config engines repo build build.config base.target) _
          (parse_config-ReadsOnly engines repo build build.config base.target) s e1 in
      (
        build,
        pjobs,
        read_build-Reads repo base s s build eb,
        parse_config-AcceptsBuild engines repo build base.target s ep,
        store_build-Created tables finds repo build pjobs s e2,
      )

  -- Whatever `GenerateBuild` returns, an error or a panic included, it has written nothing unless the
  -- provider's configuration parses without an error and marks the branch as one to build.
  pub generate_build-AcceptsBuild :
      (repo : Repository) (base : GitHook) (s : S)
      → ((generate_build engines go_scm tables repo base s).1 ≡ s)
        ⊎ ((build : Build) × (pjobs : List JobConfig) × Reads go_scm repo base s build
            × AcceptsBuild engines repo build base.target pjobs)
  unfolding generate_build
  generate_build-AcceptsBuild repo base s =
      reading-or _ (read_build engines go_scm tables repo base) _ (read_build-ReadsOnly repo base) s
        (λ build eb.
          reading-or _ (parse_config engines repo build build.config base.target) _
            (parse_config-ReadsOnly engines repo build build.config base.target) s
            (λ pjobs ep. inr (
              build,
              pjobs,
              read_build-Reads repo base s s build eb,
              parse_config-AcceptsBuild engines repo build base.target s ep,
            )))
