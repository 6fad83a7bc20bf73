-- ===== src/Store/Repos.antt =====
-- server/store/repo/repo.go on the tables of Store/Database: the queries by key, `GetPermissions` and
-- the updates of a repository's row.
pub mod Access
pub mod Finding
pub mod Unique
use abstruse.Prelude.{
  ℕ, String, Bool, true, false, List, [], ◌∷◌, ◌++◌, ◌&&◌, ◌||◌, Option, none, some, keep, any,
  str_eq, ◌+◌, ◌==◌, if◌then◌else◌,
}
use abstruse.Core.{Repository, Perms}
use abstruse.Store.Database.{User, Permission, TeamUser, Database, first, update_id}

-- The rows of the join with team_users for one user and one repository.
unfoldable pub joined : Database → ℕ → ℕ → List Permission
joined db id user_id =
    keep
      (λ p.
        p.repository_id == id
        && any (λ t. t.team_id == p.team_id && t.user_id == user_id) db.team_users)
      db.permissions

-- The loop over the permissions, with the flags r, w and x.
unfoldable pub grant : List Permission → Bool → Bool → Bool → Perms
grant [] r w x = record { read = r; write = w; exec = x }
grant (p ∷ ps) r w x =
    grant ps (if p.perms.read then true else r) (if p.perms.write then true else w)
      (if p.perms.exec then true else x)

abbrev pub all_perms : Perms
all_perms = record { read = true; write = true; exec = true }

unfoldable pub is_owner : Option Repository → ℕ → Bool
is_owner none user_id = false
is_owner (some repo) user_id = repo.user_id == user_id

abbrev pub user_permissions : Database → ℕ → ℕ → Option User → Perms
user_permissions db id user_id none = record { read = false; write = false; exec = false }
user_permissions db id user_id (some user) =
    if str_eq user.role "admin"
    then all_perms
    else if is_owner (first (λ r. r.id == id) db.repositories) user_id
    then all_perms
    else grant (joined db id user_id) false false false

unfoldable pub get_permissions : Database → ℕ → ℕ → Perms
unfolding grant joined is_owner
get_permissions db id user_id =
    user_permissions db id user_id (first (λ u. u.id == user_id) db.users)

-- The three joins from a repository to the users of the teams that may read it.
unfoldable pub team_reads : Database → ℕ → ℕ → Bool
team_reads db id user_id =
    any
      (λ p.
        p.repository_id == id
        && (p.perms.read
            && any
                (λ team.
                  team == p.team_id
                  && any (λ t. t.team_id == team && t.user_id == user_id) db.team_users)
                db.teams))
      db.permissions

abbrev pub with_perms : Database → ℕ → Option Repository → Option Repository
with_perms db user_id none = none
with_perms db user_id (some repo) =
    some (record repo { perms = get_permissions db repo.id user_id })

abbrev pub may_find : Database → ℕ → ℕ → Repository → Bool
may_find db id user_id r =
    r.id == id && r.user_id == user_id || r.id == id && team_reads db id user_id

unfoldable pub find : Database → ℕ → ℕ → Option Repository
unfolding get_permissions team_reads
find db id user_id = with_perms db user_id (first (may_find db id user_id) db.repositories)

unfoldable pub find_uid : Database → String → Option Repository
find_uid db uid = first (λ r. str_eq r.uid uid) db.repositories

unfoldable pub find_clone : Database → String → Option Repository
find_clone db clone = first (λ r. str_eq r.clone clone) db.repositories

-- The key of a repository that has none yet.
unfoldable pub create : Database → Repository → Database
create db repo = record db {
  repositories = db.repositories ++ record repo { id = db.next_id } ∷ [];
  next_id = db.next_id + 1;
}

unfoldable pub same_key : Repository → Repository → Bool
same_key repo r = str_eq r.uid repo.uid && str_eq r.clone repo.clone

-- `First(&repo)` loads the row that it finds over `repo`, so that `Updates(&repo)` writes that row back.
abbrev pub put : Database → Repository → Option Repository → Database
put db repo none = create db repo
put db repo (some row) = record db {
  repositories = update_id row.id (λ r. if same_key repo r then row else r) db.repositories;
}

unfoldable pub create_or_update : Database → Repository → Database
unfolding same_key create
create_or_update db repo = put db repo (first (same_key repo) db.repositories)

-- An update of one column, after `First` by the key; the error is "repository not found".
abbrev pub update_found : Database → ℕ → (Repository → Repository) → Database × Option String
update_found db id f = elim (first (λ r. r.id == id) db.repositories) [
  | none ↦ (db, some "repository not found")
  | some row ↦ (record db { repositories = update_id row.id f db.repositories }, none)
]

unfoldable pub set_active : Database → ℕ → Bool → Database × Option String
set_active db id active = update_found db id (λ r. record r { active = active })

unfoldable pub update_ssh_private_key : Database → ℕ → String → Database × Option String
update_ssh_private_key db id key = update_found db id (λ r. record r { ssh_private_key = key })
