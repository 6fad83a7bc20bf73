-- ===== src/Tests/Teams.antt =====
-- A team with two permissions, one of which an update takes away.
use abstruse.Prelude.{ℕ, ◌==◌, ◌≡◌, refl, true, false, [], ◌∷◌, some, any}
use abstruse.Core.{Perms}
use abstruse.Store.Database.{User, first}
use abstruse.Store.Teams.{Team, PermissionRow, TeamTables, is_for}
use abstruse.Api.Answer.{form, success}
use abstruse.Api.Teams
use abstruse.Api.Teams.{RepoPerm, TeamForm, members, renamed}
use abstruse.Api.Teams.Reconciled.{DistinctRepos, AllApart}
use abstruse.Api.Teams.Updated.{Holds, in_team, handle_update-Holds}

abbrev read_only : Perms
read_only = record { read = true; write = false; exec = false }

abbrev all_rights : Perms
all_rights = record { read = true; write = true; exec = true }

abbrev root : User
root = record { id = 1; role = "admin" }

abbrev builders : Team
builders = record { id = 5; name = "old"; about = ""; color = "red" }

abbrev row : ℕ → ℕ → Perms → PermissionRow
row id repo perms = record { id = id; team_id = 5; repository_id = repo; perms = perms }

abbrev pub tables : TeamTables
tables = record {
  users = root ∷ record { id = 2; role = "user" } ∷ [];
  teams = builders ∷ [];
  team_users = [];
  permissions = row 1 7 read_only ∷ row 2 8 all_rights ∷ [];
  next_team = 6;
  next_id = 3;
}

-- Repository 7 gets all rights, 8 is taken away, 9 is new.
abbrev pub team_form : TeamForm
team_form = record {
  id = 5;
  name = "new";
  about = "builders";
  color = "blue";
  members = 2 ∷ 3 ∷ [];
  repos = record { id = 7; perms = all_rights } ∷ record { id = 9; perms = read_only } ∷ [];
}

apart : AllApart tables.permissions
unfolding is_for
apart = (((refl, refl), tt), (tt, tt))

distinct : DistinctRepos team_form.repos
distinct = (refl, (refl, tt))

root_found : first (λ u. u.id == 1) tables.users ≡ some root
unfolding first
root_found = refl

team_found : first (λ t. t.id == 5) tables.teams ≡ some builders
unfolding first
team_found = refl

handle_update-Holds_example :
    (db' : TeamTables) × (Teams.handle_update 1 (form team_form) tables
      ≡ (success (renamed builders team_form), db'))
    × Holds 5 team_form.repos tables.permissions db'.permissions
    × ((u : ℕ)
        → in_team 5 u db'.team_users ≡ any (λ m. m.id == u) (members team_form.members tables))
handle_update-Holds_example =
    handle_update-Holds 1 team_form tables root builders root_found refl team_found distinct apart
