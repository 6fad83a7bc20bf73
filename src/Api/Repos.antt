-- ===== src/Api/Repos.antt =====
-- The handlers of server/api/repo for repositories, their webhooks and their configuration, and those of
-- server/api/build that show builds.
pub mod Hooked
use abstruse.Prelude.{
  ℕ, zero, String, Bool, List, Option, none, some, str_eq, if◌then◌else◌, Result, ok, err, panic,
  Effect, pure, ◌>>=◌,
}
use abstruse.Core.{Perms, Repository, Build}
use abstruse.Gitscm.{GoScm, Hook, HookForm, new, last_commit, find_content}
use abstruse.Api.Answer.{
  bad_request, not_found, server_error, success, crashed, Answer, Handler, or_render,
  or_render_after, permitted, render_json,
}

-- core.RepositoryFilter; a limit and an offset are not negative.
pub record RepositoryFilter : Type 0 where
  pub limit : ℕ
  pub offset : ℕ
  pub keyword : String
  pub user_id : ℕ

pub record BuildFilter : Type 0 where
  pub limit : ℕ
  pub offset : ℕ
  pub repository_id : ℕ
  pub kind : String
  pub user_id : ℕ

-- The page of repositories, and how many there are.
pub record RepositoryPage : Type 0 where
  pub count : ℕ
  pub repositories : List Repository

-- The stores of repositories and builds.
pub record RepoBackend (S : Type 0) : Type 0 where
  pub find : ℕ → ℕ → S → Result Repository
  pub list : RepositoryFilter → S → Result RepositoryPage
  pub permissions : ℕ → ℕ → S → Perms
  pub list_hooks : ℕ → ℕ → S → Result (List Hook)
  pub create_hook : ℕ → ℕ → HookForm → Effect S (Unit {0})
  pub find_build : ℕ → ℕ → S → Result Build
  pub list_builds : BuildFilter → S → Result (List Build)

-- `n, err := strconv.Atoi(…); if err != nil { n = … }`
abbrev pub number_or : ℕ → Result ℕ → ℕ
number_or d (ok n) = n
number_or d (err e) = d
number_or d panic = d

abbrev pub text_or : String → String → String
text_or d s = if str_eq s "" then d else s

module _ {S : Type 0} (backend : RepoBackend S) where
  unfoldable pub handle_find : Result ℕ → ℕ → Handler S Repository
  handle_find address user =
      or_render server_error address
        (λ id s. or_render not_found (backend.find id user s) render_json s)

  -- The keyword and the numbers are values of the query.
  unfoldable pub handle_list : Result ℕ → Result ℕ → String → ℕ → Handler S RepositoryPage
  handle_list limit offset keyword user s =
      or_render server_error
        (backend.list
          (record {
            limit = number_or 1 limit;
            offset = number_or 10 offset;
            keyword = keyword;
            user_id = user;
          })
          s)
        render_json s

  unfoldable pub handle_list_hooks : Result ℕ → ℕ → Handler S (List Hook)
  handle_list_hooks address user =
      or_render server_error address
        (λ id s. or_render not_found (backend.list_hooks id user s) render_json s)

  abbrev pub created_hooks : ℕ → ℕ → HookForm → Handler S (Unit {0})
  created_hooks id user f s =
      or_render_after server_error (backend.create_hook id user f s) render_json

  unfoldable pub handle_create_hooks : Result ℕ → ℕ → Result HookForm → Handler S (Unit {0})
  handle_create_hooks address user body = or_render server_error address (λ id.
      or_render server_error body
        (λ f s. permitted (backend.permissions id user s).write (created_hooks id user f) s))

  module _ (go_scm : GoScm S) where
    -- The configuration at the last commit of the default branch.
    abbrev pub read_config : Repository → Effect S String
    read_config repo = do
      scm ← new go_scm repo.provider.name repo.provider.url repo.provider.access_token
      commit ← last_commit go_scm scm repo.full_name repo.default_branch
      find_content go_scm scm repo.full_name commit.sha ".abstruse.yml"

    unfoldable pub handle_config : Result ℕ → ℕ → Handler S String
    unfolding new last_commit find_content
    handle_config address user = or_render server_error address (λ id s.
        or_render not_found (backend.find id user s)
          (λ repo s. or_render_after server_error (read_config repo s) render_json) s)

  unfoldable pub handle_find_build : Result ℕ → ℕ → Handler S Build
  handle_find_build address user =
      or_render bad_request address
        (λ id s. or_render not_found (backend.find_build id user s) render_json s)

  unfoldable pub handle_list_builds :
      Result ℕ → Result ℕ → Result ℕ → String → ℕ → Handler S (List Build)
  handle_list_builds limit offset repo_id kind user s =
      or_render not_found
        (backend.list_builds
          (record {
            limit = number_or 5 limit;
            offset = number_or 0 offset;
            repository_id = number_or 0 repo_id;
            kind = text_or "latest" kind;
            user_id = user;
          })
          s)
        render_json s
