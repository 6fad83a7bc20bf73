-- ===== src/Gitscm/Laws.antt =====
-- Which methods of pkg/gitscm/scm.go only read, and what is asked of gitea.
use abstruse.Prelude.{
  String, refl, not, List, [], ◌∷◌, str_eq, ReadsOnly, >>=-ReadsOnly, if-ReadsOnly,
}
use abstruse.Gitscm
use abstruse.Gitscm.{GoScm, Scm, Kind, Commit, connect, first, commits_path, convert_commit_info}

module _ {S : Type 0} (go_scm : GoScm S) where
  connect-ReadsOnly :
      (kind : Kind) (provider url token : String)
      → ReadsOnly (connect go_scm kind provider url token)
  connect-ReadsOnly kind provider url token =
      if-ReadsOnly (go_scm.accepts kind url) _ _ (λ s. refl) (λ s. refl)

  pub new-ReadsOnly :
      (provider url token : String) → ReadsOnly (Gitscm.new go_scm provider url token)
  unfolding Gitscm.new
  new-ReadsOnly provider url token =
      if-ReadsOnly (str_eq provider "github") _ _ (connect-ReadsOnly _ _ _ _) (
        if-ReadsOnly (str_eq provider "bitbucket") _ _ (connect-ReadsOnly _ _ _ _) (
          if-ReadsOnly (str_eq provider "gitea") _ _ (connect-ReadsOnly _ _ _ _) (
            if-ReadsOnly (str_eq provider "gitlab") _ _ (connect-ReadsOnly _ _ _ _)
              (if-ReadsOnly (str_eq provider "gogs") _ _ (connect-ReadsOnly _ _ _ _) (λ s. refl)))))

  list_commits-ReadsOnly :
      (scm : Scm) (repo branch : String) → ReadsOnly (Gitscm.list_commits go_scm scm repo branch)
  unfolding Gitscm.list_commits
  list_commits-ReadsOnly scm repo branch =
      if-ReadsOnly (not (str_eq scm.provider "gitea")) _ _ (λ s. refl)
        (>>=-ReadsOnly _ _ (λ s. refl) (λ a s. refl))

  first-ReadsOnly : (cs : List Commit) → ReadsOnly (first go_scm cs)
  first-ReadsOnly [] s = refl
  first-ReadsOnly (c ∷ cs) s = refl

  pub last_commit-ReadsOnly :
      (scm : Scm) (repo branch : String) → ReadsOnly (Gitscm.last_commit go_scm scm repo branch)
  unfolding Gitscm.last_commit
  last_commit-ReadsOnly scm repo branch =
      >>=-ReadsOnly _ _ (list_commits-ReadsOnly scm repo branch) first-ReadsOnly
