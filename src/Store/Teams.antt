-- ===== src/Store/Teams.antt =====
-- server/store/team/team.go and server/store/permission/permission.go on tables of rows; a failing
-- connection is not modelled.
use abstruse.Prelude.{
  ℕ, ◌+◌, String, Bool, not, ◌&&◌, List, [], ◌∷◌, ◌++◌, Option, none, some, map, keep, any, Result,
  ok, err, Effect, reads, ◌>>=◌, ◌>>◌, ◌==◌, if◌then◌else◌,
}
use abstruse.Core.{Perms}
use abstruse.Store.Database.{User, TeamUser, first}

pub record Team : Type 0 where
  pub id : ℕ
  pub name : String
  pub about : String
  pub color : String

-- core.Permission; it has a key of its own.
pub record PermissionRow : Type 0 where
  pub id : ℕ
  pub team_id : ℕ
  pub repository_id : ℕ
  pub perms : Perms

-- `next_team` and `next_id` are the keys that the next team and the next permission get.
pub record TeamTables : Type 0 where
  pub users : List User
  pub teams : List Team
  pub team_users : List TeamUser
  pub permissions : List PermissionRow
  pub next_team : ℕ
  pub next_id : ℕ

abbrev pub not_found : String
not_found = "record not found"

abbrev pub found : {A : Type 0} → Option A → Result A
found none = err not_found
found (some a) = ok a

abbrev pub with_permissions : TeamTables → List PermissionRow → TeamTables
with_permissions db rows = record db { permissions = rows }

unfoldable pub is_for : ℕ → ℕ → PermissionRow → Bool
is_for team_id repo_id p = p.team_id == team_id && p.repository_id == repo_id

-- First(&perm) after WHERE team_id = ? AND repository_id = ?
unfoldable pub find_permission : ℕ → ℕ → Effect TeamTables PermissionRow
find_permission team_id repo_id =
    reads (λ db. found (first (is_for team_id repo_id) db.permissions))

unfoldable pub list_permissions : ℕ → Effect TeamTables (List PermissionRow)
list_permissions team_id = reads (λ db. ok (keep (λ p. p.team_id == team_id) db.permissions))

-- The row gets its key from the table.
unfoldable pub create_permission : PermissionRow → Effect TeamTables (Unit {0})
create_permission perm db = (
  ok tt,
  record db {
    permissions = db.permissions ++ record perm { id = db.next_id } ∷ [];
    next_id = db.next_id + 1;
  },
)

abbrev pub set_perms : PermissionRow → PermissionRow → PermissionRow
set_perms perm row = if row.id == perm.id then record row { perms = perm.perms } else row

unfoldable pub update_permission : PermissionRow → Effect TeamTables (Unit {0})
update_permission perm db = (ok tt, with_permissions db (map (set_perms perm) db.permissions))

unfoldable pub delete_permission : PermissionRow → Effect TeamTables (Unit {0})
delete_permission perm db =
    (ok tt, with_permissions db (keep (λ row. not (row.id == perm.id)) db.permissions))

unfoldable pub find_user : ℕ → Effect TeamTables User
find_user id = reads (λ db. found (first (λ u. u.id == id) db.users))

unfoldable pub find_team : ℕ → Effect TeamTables Team
find_team id = reads (λ db. found (first (λ t. t.id == id) db.teams))

unfoldable pub list_teams : Effect TeamTables (List Team)
list_teams = reads (λ db. ok db.teams)

unfoldable pub create_team : Team → Effect TeamTables ℕ
create_team team db = (
  ok db.next_team,
  record db {
    teams = db.teams ++ record team { id = db.next_team } ∷ [];
    next_team = db.next_team + 1;
  },
)

unfoldable pub update_team : Team → Effect TeamTables (Unit {0})
update_team team db =
    (ok tt, record db { teams = map (λ t. if t.id == team.id then team else t) db.teams })

unfoldable pub delete_team : Team → Effect TeamTables (Unit {0})
delete_team team db = (ok tt, record db { teams = keep (λ t. not (t.id == team.id)) db.teams })

-- The rows that join a team with its users; a row that is there is not inserted again.
unfoldable pub joins : ℕ → ℕ → TeamUser → Bool
joins team_id user_id t = t.team_id == team_id && t.user_id == user_id

unfoldable pub append_users : ℕ → List User → List TeamUser → List TeamUser
append_users id [] rows = rows
append_users id (u ∷ us) rows = append_users id us (
    if any (joins id u.id) rows then rows else rows ++ record { team_id = id; user_id = u.id } ∷ [])

abbrev pub with_team_users : (List TeamUser → List TeamUser) → Effect TeamTables (Unit {0})
with_team_users f db = (ok tt, record db { team_users = f db.team_users })

unfoldable pub add_users : ℕ → List User → Effect TeamTables (Unit {0})
add_users id users = find_team id >>= λ team. with_team_users (append_users team.id users)

unfoldable pub delete_users : ℕ → List User → Effect TeamTables (Unit {0})
delete_users id users = find_team id >>= λ team.
    with_team_users (keep (λ t. not (t.team_id == team.id && any (λ u. u.id == t.user_id) users)))

unfoldable pub clear_users : ℕ → List TeamUser → List TeamUser
clear_users id rows = keep (λ t. not (t.team_id == id)) rows

unfoldable pub update_users : ℕ → List User → Effect TeamTables (Unit {0})
update_users id users = find_team id >>= λ team.
    with_team_users (clear_users team.id) >> with_team_users (append_users team.id users)
