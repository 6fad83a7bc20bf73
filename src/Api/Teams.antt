-- ===== src/Api/Teams.antt =====
-- The handlers of server/api/team that create and update a team with its members and permissions.
pub mod Reconciled
pub mod Held
pub mod Updated
use abstruse.Prelude.{
  ℕ, String, Bool, true, false, not, List, [], ◌∷◌, ◌++◌, any, str_eq, Result, ok, err, panic,
  Effect, pure, done, reads, ◌>>=◌, ◌>>◌, ◌==◌, if◌then◌else◌,
}
use abstruse.Core.{Perms}
use abstruse.Store.Database.{User}
use abstruse.Store.Teams.{
  Team, PermissionRow, TeamTables, find_user, find_team, list_teams, create_team, update_team,
  update_users, find_permission, list_permissions, create_permission, update_permission,
  delete_permission,
}
use abstruse.Api.Answer.{
  Body, Answer, not_found, server_error, Handler, with_body, or_render, or_render_after,
  render_json, only_admin,
}

pub record RepoPerm : Type 0 where
  pub id : ℕ
  pub perms : Perms

-- The form of HandleCreate has no key.
pub record TeamForm : Type 0 where
  pub id : ℕ
  pub name : String
  pub about : String
  pub color : String
  pub members : List ℕ
  pub repos : List RepoPerm

abbrev pub role_of : Result User → Result String
role_of (ok u) = ok u.role
role_of (err e) = err e
role_of panic = panic

-- The users of the form that are found.
abbrev and_member : Result User → List User → List User
and_member (ok u) us = u ∷ us
and_member (err e) us = us
and_member panic us = us

unfoldable pub members : List ℕ → TeamTables → List User
members [] db = []
members (id ∷ ids) db = and_member (find_user id db).0 (members ids db)

-- One permission of the team against the form's repositories: whether one of them is its repository, and
-- the keys `updated`.
abbrev pub and_update : RepoPerm → ℕ → List ℕ → Result PermissionRow → Effect TeamTables (List ℕ)
and_update repo repo_id updated (ok p) =
    update_permission (record p { perms = repo.perms }) >> pure (updated ++ repo_id ∷ [])
and_update repo repo_id updated (err e) = pure updated
and_update repo repo_id updated panic = pure updated

unfoldable pub match_repos :
    ℕ → PermissionRow → List RepoPerm → Bool → List ℕ → Effect TeamTables (Bool × List ℕ)
match_repos team_id perm [] update updated db = (ok (update, updated), db)
match_repos team_id perm (repo ∷ repos) update updated db = elim (repo.id == perm.repository_id) [
  | true ↦
      (and_update repo perm.repository_id updated (find_permission team_id perm.repository_id db).0
          >>= λ updated. match_repos team_id perm repos true updated)
        db
  | false ↦ match_repos team_id perm repos update updated db
]

abbrev pub unless_updated : PermissionRow → Bool → Effect TeamTables (Unit {0})
unless_updated perm update = if not update then delete_permission perm else done

-- The loop over the team's permissions.
unfoldable pub settle : ℕ → List RepoPerm → List PermissionRow → List ℕ → Effect TeamTables (List ℕ)
settle team_id repos [] updated = pure updated
settle team_id repos (perm ∷ perms) updated =
    match_repos team_id perm repos false updated >>= λ (update, updated).
    unless_updated perm update >> settle team_id repos perms updated

abbrev pub new_permission : ℕ → RepoPerm → PermissionRow
new_permission team_id repo = record {
  id = 0;
  team_id = team_id;
  repository_id = repo.id;
  perms = repo.perms;
}

-- The loop over the form's repositories.
unfoldable pub create_missing : ℕ → List ℕ → List RepoPerm → Effect TeamTables (Unit {0})
create_missing team_id updated [] = done
create_missing team_id updated (repo ∷ repos) =
    (if not (any (λ id. id == repo.id) updated)
      then create_permission (new_permission team_id repo)
      else done)
    >> create_missing team_id updated repos

unfoldable pub update_permissions : ℕ → List RepoPerm → Effect TeamTables (Unit {0})
update_permissions team_id repos = list_permissions team_id >>= λ perms.
    settle team_id repos perms [] >>= λ updated. create_missing team_id updated repos

abbrev pub set_members : ℕ → List ℕ → Effect TeamTables (Unit {0})
set_members team_id ids db = update_users team_id (members ids db) db

abbrev pub renamed : Team → TeamForm → Team
renamed team f = record team { name = f.name; about = f.about; color = f.color }

-- What follows `teams.Find`: every error is an internal one.
unfoldable pub update_found : TeamForm → Team → Effect TeamTables Team
update_found f team =
    update_team (renamed team f)
    >> (set_members team.id f.members
        >> (update_permissions team.id f.repos >> pure (renamed team f)))

abbrev pub answer_with : {A : Type 0} → Effect TeamTables A → Handler TeamTables A
answer_with m db = or_render_after server_error (m db) render_json

unfoldable pub handle_update : ℕ → Body TeamForm → Handler TeamTables Team
handle_update user body db =
    only_admin (role_of (find_user user db).0)
      (with_body body (λ f db.
        or_render not_found (find_team f.id db).0 (λ team. answer_with (update_found f team)) db))
      db

-- The loop of HandleCreate.
unfoldable pub create_all : ℕ → List RepoPerm → Effect TeamTables (Unit {0})
create_all team_id [] = done
create_all team_id (repo ∷ repos) =
    create_permission (new_permission team_id repo) >> create_all team_id repos

abbrev pub new_team : TeamForm → Team
new_team f = record { id = 0; name = f.name; about = f.about; color = f.color }

unfoldable pub create_new : TeamForm → Effect TeamTables Team
create_new f = create_team (new_team f) >>= λ id.
    set_members id f.members >> (create_all id f.repos >> pure (record (new_team f) { id = id }))

unfoldable pub handle_create : ℕ → Body TeamForm → Handler TeamTables Team
handle_create user body db =
    only_admin (role_of (find_user user db).0) (with_body body (λ f. answer_with (create_new f))) db

unfoldable pub handle_find : Result ℕ → Handler TeamTables Team
handle_find address =
    or_render server_error address (λ id db. or_render not_found (find_team id db).0 render_json db)

unfoldable pub handle_list : Handler TeamTables (List Team)
handle_list db = or_render server_error (list_teams db).0 render_json db
