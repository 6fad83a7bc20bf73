-- ===== src/Api/Teams/Held.antt =====
-- What a team may do on a repository after an update of the team.
use mathlib.Core.Path.{ap₂}
use abstruse.Prelude.{
  ℕ, ◌+◌, ◌≡◌, ◌≢◌, ◌⊎◌, refl, sym, ap, ◌∙◌, Bool, true, false, ◌&&◌, ◌||◌, inl, inr, Bool-cases,
  List, [], ◌∷◌, ◌++◌, append_assoc, append-nil, any, Option, none, some, ◌==◌, ==_iff, ==-refl,
  or-false, and-false, or_assoc, any-append, if◌then◌else◌, ok, arith,
}
use abstruse.Core.{Perms}
use abstruse.Store.Database.{first}
use abstruse.Store.Teams.{PermissionRow, TeamTables, with_permissions, create_permission}
use abstruse.Api.Teams.{RepoPerm, create_missing, new_permission}
use abstruse.Api.Teams.Reconciled.{entry, treated, piece, touched, reconciled, updated_by}

-- The permissions of the first row for a team and a repository.
abbrev pub held : ℕ → ℕ → List PermissionRow → Option Perms
held team repo [] = none
held team repo (x ∷ xs) =
    if x.team_id == team && x.repository_id == repo then some x.perms else held team repo xs

-- The permissions that the form asks for.
abbrev pub wanted : List RepoPerm → ℕ → Option Perms
wanted [] repo = none
wanted (g ∷ gs) repo = if g.id == repo then some g.perms else wanted gs repo

abbrev perms_of : Option RepoPerm → Option Perms
perms_of none = none
perms_of (some g) = some g.perms

wanted-entry : (repos : List RepoPerm) (repo : ℕ) → wanted repos repo ≡ perms_of (entry repos repo)
unfolding first
wanted-entry [] repo = refl
wanted-entry (g ∷ gs) repo = ground (arith, wanted-entry gs repo)

abbrev pub or_else : Option Perms → Option Perms → Option Perms
or_else none o = o
or_else (some p) o = some p

pub held-append :
    (team repo : ℕ) (xs ys : List PermissionRow)
    → held team repo (xs ++ ys) ≡ or_else (held team repo xs) (held team repo ys)
held-append team repo [] ys = refl
held-append team repo (x ∷ xs) ys = ground (arith, held-append team repo xs ys)

or_else-if :
    (w : Option Perms) (b c : Bool)
    → or_else (if b then w else none) (if c then w else none) ≡ (if b || c then w else none)
or_else-if w false c = refl
or_else-if none true true = refl
or_else-if none true false = refl
or_else-if (some p) true c = refl

module _ (team : ℕ) (repos : List RepoPerm) (repo : ℕ) where
  abbrev for_repo : PermissionRow → Bool
  for_repo x = x.team_id == team && x.repository_id == repo

  held-treated :
      (x : PermissionRow) (o : Option RepoPerm)
      → (x.team_id == team) ≡ true
      → wanted repos x.repository_id ≡ perms_of o
      → held team repo (treated o x) ≡ (if x.repository_id == repo then wanted repos repo else none)
  held-treated x none own h = elim (Bool-cases (x.repository_id == repo)) [
    | inl e ↦ rw e (sym h ∙ ap (wanted repos) ((==_iff _ _).0 e))
    | inr e ↦ rw e refl
  ]
  held-treated x (some g) own h = elim (Bool-cases (x.repository_id == repo)) [
    | inl e ↦ rw (own, e) (sym h ∙ ap (wanted repos) ((==_iff _ _).0 e))
    | inr e ↦ rw (own, e) refl
  ]

  held-piece :
      (x : PermissionRow)
      → held team repo (piece team repos x) ≡ (if for_repo x then wanted repos repo else none)
  held-piece x = elim (Bool-cases (x.team_id == team)) [
    | inl own ↦
        rw own
          (held-treated x (entry repos x.repository_id) own (wanted-entry repos x.repository_id))
    | inr other ↦ rw other (rw other refl)
  ]

  pub held-reconciled :
      (xs : List PermissionRow)
      → held team repo (reconciled team repos xs)
        ≡ (if any for_repo xs then wanted repos repo else none)
  held-reconciled [] = refl
  held-reconciled (x ∷ xs) =
      held-append team repo (piece team repos x) (reconciled team repos xs)
      ∙ ap₂ or_else (held-piece x) (held-reconciled xs)
      ∙ or_else-if (wanted repos repo) (for_repo x) (any for_repo xs)

  -- The loop puts a repository that the form names into `updated` where the team has a row for it.
  any-touched :
      (x : PermissionRow) (upd : List ℕ) (o : Option RepoPerm)
      → wanted repos x.repository_id ≡ perms_of o
      → wanted repos repo ≢ none
      → any (λ id. id == repo) (touched o x upd)
        ≡ (any (λ id. id == repo) upd || x.repository_id == repo)
  any-touched x upd none e h = elim (Bool-cases (x.repository_id == repo)) [
    | inl same ↦ absurd (h (sym (ap (wanted repos) ((==_iff _ _).0 same)) ∙ e))
    | inr other ↦ rw other (sym (or-false _))
  ]
  any-touched x upd (some g) e h =
      any-append (λ id. id == repo) upd (x.repository_id ∷ [])
      ∙ ap (λ b. any (λ id. id == repo) upd || b) (or-false _)

  pub any-updated_by :
      (xs : List PermissionRow) (upd : List ℕ)
      → wanted repos repo ≢ none
      → any (λ id. id == repo) (updated_by team repos xs upd)
        ≡ (any (λ id. id == repo) upd || any for_repo xs)
  any-updated_by [] upd h = sym (or-false _)
  any-updated_by (x ∷ xs) upd h = elim (Bool-cases (x.team_id == team)) [
    | inl own ↦ rw own (
        any-updated_by xs (touched (entry repos x.repository_id) x upd) h
        ∙ ap (λ b. b || any for_repo xs)
            (any-touched x upd (entry repos x.repository_id) (wanted-entry repos x.repository_id) h)
        ∙ or_assoc (any (λ id. id == repo) upd) (x.repository_id == repo) (any for_repo xs))
    | inr other ↦ rw other (any-updated_by xs upd h)
  ]

-- The rows that the loop over the form makes, with their keys from `n` on.
abbrev pub created : ℕ → List ℕ → List RepoPerm → ℕ → List PermissionRow
created team upd [] n = []
created team upd (g ∷ gs) n =
    if any (λ id. id == g.id) upd
    then created team upd gs n
    else record (new_permission team g) { id = n } ∷ created team upd gs (n + 1)

abbrev pub key_after : List ℕ → List RepoPerm → ℕ → ℕ
key_after upd [] n = n
key_after upd (g ∷ gs) n =
    if any (λ id. id == g.id) upd then key_after upd gs n else key_after upd gs (n + 1)

abbrev pub with_created : TeamTables → List PermissionRow → ℕ → TeamTables
with_created db rows n = record db { permissions = db.permissions ++ rows; next_id = n }

pub create_missing-created :
    (team : ℕ) (upd : List ℕ) (repos : List RepoPerm) (db : TeamTables)
    → create_missing team upd repos db ≡ (
      ok tt,
      with_created db (created team upd repos db.next_id) (key_after upd repos db.next_id),
    )
unfolding create_missing create_permission
create_missing-created team upd [] db =
    ap (λ rows. (ok tt, with_permissions db rows)) (sym (append-nil db.permissions))
create_missing-created team upd (g ∷ gs) db = elim (Bool-cases (any (λ id. id == g.id) upd)) [
  | inl there ↦ rw there (create_missing-created team upd gs db)
  | inr missing ↦ rw missing (
      create_missing-created team upd gs _
      ∙ ap
          (λ rows.
            (ok tt, record db { permissions = rows; next_id = key_after upd gs (db.next_id + 1) }))
          (append_assoc db.permissions _ (created team upd gs (db.next_id + 1))))
]

none_both : (b : Bool) → ◌≡◌ {A = Option Perms} (if b then none else none) none
none_both true = refl
none_both false = refl

-- A row is made for a repository of the form that is not in `updated`.
pub held-created :
    (team repo : ℕ) (upd : List ℕ) (repos : List RepoPerm) (n : ℕ)
    → held team repo (created team upd repos n)
      ≡ (if any (λ id. id == repo) upd then none else wanted repos repo)
held-created team repo upd [] n = sym (none_both (any (λ id. id == repo) upd))
held-created team repo upd (g ∷ gs) n =
    by_tests (held-created team repo upd gs) (Bool-cases (any (λ id. id == g.id) upd))
      (Bool-cases (g.id == repo))
  where
    at_repo : (g.id == repo) ≡ true → any (λ id. id == g.id) upd ≡ any (λ id. id == repo) upd
    at_repo same = ap (λ k. any (λ id. id == k) upd) ((==_iff _ _).0 same)

    by_tests :
        ((m : ℕ)
          → held team repo (created team upd gs m)
            ≡ (if any (λ id. id == repo) upd then none else wanted gs repo))
        → (any (λ id. id == g.id) upd ≡ true) ⊎ (any (λ id. id == g.id) upd ≡ false)
        → ((g.id == repo) ≡ true) ⊎ ((g.id == repo) ≡ false)
        → held team repo (created team upd (g ∷ gs) n)
          ≡ (if any (λ id. id == repo) upd then none else wanted (g ∷ gs) repo)
    by_tests ih (inl there) (inl same) =
        rw (there, sym (at_repo same) ∙ there) (ih n ∙ rw (sym (at_repo same) ∙ there) refl)
    by_tests ih (inl there) (inr other) = rw (there, other) (ih n)
    by_tests ih (inr missing) (inl same) =
        rw (missing, sym (at_repo same) ∙ missing, same, ==-refl team) refl
    by_tests ih (inr missing) (inr other) =
        rw (missing, other, and-false (team == team)) (ih (n + 1))

module _ (team other : ℕ) (differ : (team == other) ≡ false) (repo : ℕ) where
  held-treated_other :
      (x : PermissionRow) (o : Option RepoPerm) (xs : List PermissionRow)
      → (x.team_id == other) ≡ false
      → held other repo (treated o x ++ xs) ≡ held other repo xs
  held-treated_other x none xs h = refl
  held-treated_other x (some g) xs h = rw h refl

  pub held-reconciled_other :
      (repos : List RepoPerm) (xs : List PermissionRow)
      → held other repo (reconciled team repos xs) ≡ held other repo xs
  held-reconciled_other repos [] = refl
  held-reconciled_other repos (x ∷ xs) = elim (Bool-cases (x.team_id == team)) [
    | inl own ↦
        let apart = ap (λ t. t == other) ((==_iff _ _).0 own) ∙ differ in
        rw own (
          held-treated_other x (entry repos x.repository_id) (reconciled team repos xs) apart
          ∙ held-reconciled_other repos xs
          ∙ rw apart refl)
    | inr others ↦ rw others (
        ap (λ o. if x.team_id == other && x.repository_id == repo then some x.perms else o)
          (held-reconciled_other repos xs))
  ]

  pub held-created_other :
      (upd : List ℕ) (repos : List RepoPerm) (n : ℕ)
      → held other repo (created team upd repos n) ≡ none
  held-created_other upd [] n = refl
  held-created_other upd (g ∷ gs) n = elim (Bool-cases (any (λ id. id == g.id) upd)) [
    | inl there ↦ rw there (held-created_other upd gs n)
    | inr missing ↦ rw (missing, differ) (held-created_other upd gs (n + 1))
  ]
