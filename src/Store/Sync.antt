-- ===== src/Store/Sync.antt =====
-- `Sync` of server/store/provider/provider.go: the repositories of a user's SCM account, page by page.
pub mod Pages
pub mod Ending
use abstruse.Prelude.{
  ℕ, zero, suc, ◌+◌, String, Bool, List, [], ◌∷◌, Option, none, some, cat, length, ◌==◌,
  if◌then◌else◌, Result, ok, err, panic, Effect, reads, ◌>>=◌,
}
use abstruse.Core.{Repository, Provider}
use abstruse.Gitscm
use abstruse.Gitscm.{GoScm, Scm}
use abstruse.Store.Rows.{zero_repository}
use abstruse.Store.Database.{Database}
use abstruse.Store.Repos.{create_or_update}

-- scm.Repository and scm.Perm, and the struct Permission
pub record Permission : Type 0 where
  pub pull : Bool
  pub push : Bool
  pub admin : Bool

pub record ScmRepository : Type 0 where
  pub id : String
  pub namespace : String
  pub name : String
  pub perm : Permission
  pub branch : String
  pub private : Bool
  pub clone : String
  pub clone_ssh : String
  pub link : String

-- A provider's row with its key and its user.
pub record ProviderRow : Type 0 where
  pub id : ℕ
  pub user_id : ℕ
  pub provider : Provider

unfoldable pub convert_repo : ScmRepository → Repository × Permission
convert_repo r = (
  record zero_repository {
    uid = r.id;
    namespace = r.namespace;
    name = r.name;
    full_name = cat r.namespace (cat "/" r.name);
    private = r.private;
    url = r.link;
    clone = r.clone;
    clone_ssh = r.clone_ssh;
    default_branch = r.branch;
  },
  r.perm,
)

-- The row of a repository of the account; its provider is a key of the providers' table.
unfoldable pub repository_row : ProviderRow → ScmRepository → Repository
unfolding convert_repo
repository_row p r = record (convert_repo r).0 { user_id = p.user_id; provider = p.provider }

-- The loop over a page.
unfoldable pub store_page : ProviderRow → List ScmRepository → Database → Database
unfolding convert_repo repository_row
store_page p [] db = db
store_page p (r ∷ rs) db =
    store_page p rs
      (if (convert_repo r).1.admin then create_or_update db (repository_row p r) else db)

abbrev pub page_size : ℕ
page_size = 30

-- `list` is Repositories.List of go-scm, `find` and `update` the row of the provider in its table.
pub record Account : Type 0 where
  pub go_scm : GoScm Database
  pub list : Scm → ℕ → ℕ → Database → Result (List ScmRepository)
  pub find : ℕ → Database → Result ProviderRow
  pub update : ProviderRow → Effect Database (Unit {0})

module _ (account : Account) where
  unfoldable pub find_repos : ℕ → ℕ → ℕ → Effect Database (List ScmRepository)
  find_repos id page page_size = do
    row ← reads (account.find id)
    let p = row.provider
    scm ← Gitscm.new account.go_scm p.name p.url p.access_token
    reads (account.list scm page page_size)

  -- A round of `for`: an error ends the loop, and so does a page that is not full. Without fuel there is
  -- no result; a panic passes through.
  abbrev pub go_on :
      ProviderRow
      → (ℕ → Database → Option (Result (Unit {0}) × Database))
      → ℕ
      → Result (List ScmRepository) × Database
      → Option (Result (Unit {0}) × Database)
  go_on p next page (err e, db) = some (ok tt, db)
  go_on p next page (panic, db) = some (panic, db)
  go_on p next page (ok rs, db) =
      let db' = store_page p rs db in
      let rest = next (page + 1) db' in if length rs == page_size then rest else some (ok tt, db')

  unfoldable pub sync_loop : ProviderRow → ℕ → ℕ → Database → Option (Result (Unit {0}) × Database)
  unfolding find_repos
  sync_loop p zero page db = none
  sync_loop p (suc fuel) page db =
      go_on p (sync_loop p fuel) page (find_repos p.id page page_size db)

  abbrev pub synced :
      ProviderRow → Option (Result (Unit {0}) × Database) → Option (Result (Unit {0}) × Database)
  synced p none = none
  synced p (some (ok u, db)) = some (account.update p db)
  synced p (some (err e, db)) = some (err e, db)
  synced p (some (panic, db)) = some (panic, db)

  abbrev pub from_row : ℕ → Result ProviderRow → Database → Option (Result (Unit {0}) × Database)
  from_row fuel (ok p) db = synced p (sync_loop p fuel 1 db)
  from_row fuel (err e) db = some (err e, db)
  from_row fuel panic db = some (panic, db)

  -- `provider.LastSync` is part of the update.
  unfoldable pub sync : ℕ → ℕ → Database → Option (Result (Unit {0}) × Database)
  unfolding sync_loop
  sync fuel id db = from_row fuel (account.find id db) db
