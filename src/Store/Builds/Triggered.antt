-- ===== src/Store/Builds/Triggered.antt =====
-- `TriggerBuild` of server/store/build/build.go: what a build that a user asks for holds.
use abstruse.Prelude.{◌⊎◌, String, ◌≡◌, true, str_eq, if◌then◌else◌}
use abstruse.Core.{Repository, Build}
use abstruse.Gitscm
use abstruse.Gitscm.{GoScm}
use abstruse.Store.Builds.{Tables, Engines, TriggerBuildOpts}

-- The row of the build: its branch is empty where the user names one.
abbrev pub Triggers : Repository → TriggerBuildOpts → Build → Type 0
Triggers repo opts build =
    (build.branch ≡ (if str_eq opts.branch "" then repo.default_branch else ""))
    × ((str_eq opts.config "" ≡ true) ⊎ (build.config ≡ opts.config))

module _ {S : Type 0} (engines : Engines) (go_scm : GoScm S) (tables : Tables S) where
  abbrev sha_of : TriggerBuildOpts → Gitscm.Commit → String
  sha_of opts commit = if str_eq opts.sha "" then commit.sha else opts.sha
