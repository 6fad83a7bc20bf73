-- ===== src/Api/Teams/Updated.antt =====
-- What the tables hold after a team has been updated.
use mathlib.Core.Path.{ap₂}
use abstruse.Prelude.{
  ℕ, ◌≢◌, ◌≡◌, All, and_run, refl, sym, ap, ◌∙◌, Bool, true, false, ◌&&◌, ◌||◌, inl, inr,
  Bool-cases, List, [], ◌∷◌, ◌++◌, map, any, Option, none, some, ◌==◌, ==_iff, ==-refl, or-false,
  or_assoc, any-append, if◌then◌else◌, str_eq, ok, arith,
}
use abstruse.Core.{Perms}
use abstruse.Store.Database.{User, TeamUser, first}
use abstruse.Store.Database.First.{first-Memᴰ}
use abstruse.Store.Teams.{
  Team, PermissionRow, TeamTables, with_permissions, joins, append_users, clear_users, update_users,
  find_team, find_user, found, update_team, list_permissions,
}
use abstruse.Api.Answer.{form, success}
use abstruse.Api.Teams.{
  RepoPerm, TeamForm, create_missing, members, and_member, renamed, update_permissions,
  update_found, handle_update,
}
use abstruse.Api.Teams.Reconciled.{
  Apart, DistinctRepos, AllApart, reconciled, updated_by, settle-reconciled,
}
use abstruse.Api.Teams.Held.{
  held, wanted, or_else, held-append, held-reconciled, held-reconciled_other, any-updated_by,
  created, create_missing-created, key_after, held-created, held-created_other,
}

-- The team has the permissions of the form and no others, and every other team has those that it had.
abbrev pub Holds : ℕ → List RepoPerm → List PermissionRow → List PermissionRow → Type 0
Holds team repos rows rows' =
    ((repo : ℕ) → held team repo rows' ≡ wanted repos repo)
    × ((other repo : ℕ) → (team == other) ≡ false → held other repo rows' ≡ held other repo rows)

one_of :
    (b : Bool) (p : Perms)
    → or_else (if b then some p else none) (if b then none else some p) ≡ some p
one_of true p = refl
one_of false p = refl

or_else-none : (o : Option Perms) → or_else o none ≡ o
or_else-none none = refl
or_else-none (some p) = refl

module _ (team : ℕ) (repos : List RepoPerm) (rows : List PermissionRow) (n : ℕ) where
  abbrev updated : List ℕ
  updated = updated_by team repos rows []

  abbrev after : List PermissionRow
  after = reconciled team repos rows ++ created team updated repos n

  held_after : (repo : ℕ) → held team repo after ≡ wanted repos repo
  held_after repo =
      held-append team repo (reconciled team repos rows) (created team updated repos n)
      ∙ ap₂ or_else (held-reconciled team repos repo rows) (held-created team repo updated repos n)
      ∙ by_wanted (wanted repos repo) (any-updated_by team repos repo rows [])
    where
      by_wanted :
          (w : Option Perms)
          → (w ≢ none
              → any (λ id. id == repo) updated
                ≡ any (λ x. x.team_id == team && x.repository_id == repo) rows)
          → or_else
              (if any (λ x. x.team_id == team && x.repository_id == repo) rows then w else none)
              (if any (λ id. id == repo) updated then none else w)
            ≡ w
      by_wanted none h = ground arith
      by_wanted (some p) h =
          rw (h (λ e. absurd (cc)))
            (one_of (any (λ x. x.team_id == team && x.repository_id == repo) rows) p)

  held_after_other :
      (other repo : ℕ) → (team == other) ≡ false → held other repo after ≡ held other repo rows
  held_after_other other repo d =
      held-append other repo (reconciled team repos rows) (created team updated repos n)
      ∙ ap₂ or_else (held-reconciled_other team other d repo repos rows)
          (held-created_other team other d repo updated repos n)
      ∙ or_else-none (held other repo rows)

-- The loops of `HandleUpdate` on the permissions end without an error, and the tables are the form's.
update_permissions-Holds :
    (team : ℕ) (repos : List RepoPerm) (db : TeamTables)
    → DistinctRepos repos
    → AllApart db.permissions
    → (rows : List PermissionRow) × (n : ℕ) × (update_permissions team repos db
        ≡ (ok tt, record db { permissions = rows; next_id = n }))
      × Holds team repos db.permissions rows
unfolding update_permissions list_permissions
update_permissions-Holds team repos db d a = (
  after team repos db.permissions db.next_id,
  key_after (updated_by team repos db.permissions []) repos db.next_id,
  ap (λ r. and_run r (λ updated. create_missing team updated repos))
        (settle-reconciled team repos d db db.permissions [] [] (a, nothing db.permissions))
      ∙ create_missing-created team (updated_by team repos db.permissions []) repos
          (with_permissions db (reconciled team repos db.permissions)),
  (
    held_after team repos db.permissions db.next_id,
    held_after_other team repos db.permissions db.next_id,
  ),
)
  where
    nothing : (xs : List PermissionRow) → All (λ y. All (Apart y) []) xs
    nothing [] = tt
    nothing (x ∷ xs) = (tt, nothing xs)

-- The row of the team is found again after it has been written.
first-written :
    (team team' : Team) (teams : List Team)
    → team'.id ≡ team.id
    → first (λ t. t.id == team.id) teams ≡ some team
    → first (λ t. t.id == team.id) (map (λ t. if t.id == team.id then team' else t) teams)
      ≡ some team'
unfolding first
first-written team team' [] e h = absurd (cc)
first-written team team' (t ∷ ts) e h = elim (Bool-cases (t.id == team.id)) [
  | inl own ↦ rw own (rw (ap (λ n. n == team.id) e ∙ ==-refl team.id) refl)
  | inr other ↦ rw other (rw other (first-written team team' ts e (rw other at h)))
]

-- Who is in the team.
abbrev pub in_team : ℕ → ℕ → List TeamUser → Bool
in_team team user rows = any (joins team user) rows

absorb : (a b c : Bool) → (b ≡ true → a ≡ true) → (a || c) ≡ (a || (b || c))
absorb true b c h = refl
absorb false true c h = absurd (cc (h refl))
absorb false false c h = refl

append_users-any :
    (team user : ℕ) (us : List User) (rows : List TeamUser)
    → any (joins team user) (append_users team us rows)
      ≡ (any (joins team user) rows || any (λ u. u.id == user) us)
unfolding append_users joins
append_users-any team user [] rows = sym (or-false _)
append_users-any team user (u ∷ us) rows = elim (Bool-cases (any (joins team u.id) rows)) [
  | inl there ↦ rw there (
      append_users-any team user us rows
      ∙ absorb (any (joins team user) rows) (u.id == user) (any (λ v. v.id == user) us)
          (λ same. ap (λ n. any (joins team n) rows) (sym ((==_iff _ _).0 same)) ∙ there))
  | inr missing ↦ rw missing (
      append_users-any team user us _
      ∙ ap (λ b. b || any (λ v. v.id == user) us)
          (any-append (joins team user) rows _
            ∙ ap (λ b. any (joins team user) rows || b) (rw (==-refl team) (or-false _)))
      ∙ or_assoc (any (joins team user) rows) (u.id == user) (any (λ v. v.id == user) us))
]

clear_users-any :
    (team user : ℕ) (rows : List TeamUser) → any (joins team user) (clear_users team rows) ≡ false
unfolding clear_users joins
clear_users-any team user [] = refl
clear_users-any team user (t ∷ ts) = ground (arith, clear_users-any team user ts)

members_same :
    (ids : List ℕ) (db db' : TeamTables) → db'.users ≡ db.users → members ids db' ≡ members ids db
unfolding members find_user
members_same [] db db' e = refl
members_same (id ∷ ids) db db' e =
    ap₂ and_member (ap (λ us. found (first (λ u. u.id == id) us)) e) (members_same ids db db' e)

module _ (f : TeamForm) (team : Team) (db : TeamTables) where
  abbrev with_team : TeamTables
  with_team = record db {
    teams = map (λ t. if t.id == team.id then renamed team f else t) db.teams;
  }

  abbrev with_members : TeamTables
  with_members = record with_team {
    team_users =
        append_users team.id (members f.members with_team) (clear_users team.id db.team_users);
  }

  update_found-ok :
      {rows : List PermissionRow} {n : ℕ}
      → first (λ t. t.id == team.id) db.teams ≡ some team
      → update_permissions team.id f.repos with_members
        ≡ (ok tt, record with_members { permissions = rows; next_id = n })
      → update_found f team db
        ≡ (ok (renamed team f), record with_members { permissions = rows; next_id = n })
  unfolding update_found find_team update_team update_users
  update_found-ok there updates =
      rw (first-written team (renamed team f) db.teams refl there) (rw updates refl)

  in_team-members :
      (u : ℕ)
      → in_team team.id u with_members.team_users ≡ any (λ m. m.id == u) (members f.members db)
  in_team-members u =
      append_users-any team.id u (members f.members with_team) (clear_users team.id db.team_users)
      ∙ rw (clear_users-any team.id u db.team_users)
          (ap (any (λ m. m.id == u)) (members_same f.members db with_team refl))

-- An admin's valid form for a team that is found is answered with the team under its new name, where the
-- form names no repository twice, and no two permissions have one key or are for one team and one repository.
-- The team then has the form's permissions and no others, other teams have those that they had, and
-- the users of the team are those of the form that are found.
pub handle_update-Holds :
    (user : ℕ) (f : TeamForm) (db : TeamTables) (admin : User) (team : Team)
    → first (λ u. u.id == user) db.users ≡ some admin
    → str_eq admin.role "admin" ≡ true
    → first (λ t. t.id == f.id) db.teams ≡ some team
    → DistinctRepos f.repos
    → AllApart db.permissions
    → (db' : TeamTables) × (handle_update user (form f) db ≡ (success (renamed team f), db'))
      × Holds team.id f.repos db.permissions db'.permissions
      × ((u : ℕ) → in_team team.id u db'.team_users ≡ any (λ m. m.id == u) (members f.members db))
unfolding handle_update find_user find_team
handle_update-Holds user f db admin team is role there d a =
    let (rows, n, updates, holds) =
      update_permissions-Holds team.id f.repos (with_members f team db) d a in
    let key = (==_iff _ _).0 (first-Memᴰ (λ t. t.id == f.id) db.teams team there).1 in
    let again = ap (λ n. first (λ t. t.id == n) db.teams) key ∙ there in
    (
      record (with_members f team db) { permissions = rows; next_id = n },
      rw (is, role, there) (rw (update_found-ok f team db again updates) refl),
      holds,
      in_team-members f team db,
    )
