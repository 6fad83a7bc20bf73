-- ===== src/Store/Repos/Access.antt =====
-- Whom `Find` and `GetPermissions` of server/store/repo/repo.go let at a repository.
use mathlib.Core.List.{Memᴰ}
use mathlib.Core.Logic.{⊎_map}
use abstruse.Prelude.{
  ℕ, ◌≡◌, ◌⊎◌, ◌↔◌, inl, inr, refl, sym, ap, ◌∙◌, Bool, true, false, List, [], ◌∷◌, ◌||◌, Option,
  none, some, any, str_eq, ◌==◌, ==_iff, if◌then◌else◌, both_true, and_true, any-Memᴰ, Memᴰ-any,
  Memᴰ-keep, keep-Memᴰ, arith,
}
use abstruse.Core.{Repository, Perms}
use abstruse.Store.Database.{User, Permission, TeamUser, Database, first}
use abstruse.Store.Repos.{joined, grant, is_owner, user_permissions, get_permissions}

pub data Right : Type 0 where
  reading writing executing : Right

abbrev pub holds : Right → Perms → Bool
holds reading p = p.read
holds writing p = p.write
holds executing p = p.exec

-- A team that the user is in has a permission row with this right for the repository.
abbrev pub TeamGrants : Right → Database → ℕ → ℕ → Type 0
TeamGrants a db id user_id =
    (p : Permission) × Memᴰ p db.permissions
    × (p.repository_id ≡ id)
    × (holds a p.perms ≡ true)
    × ((t : TeamUser) × Memᴰ t db.team_users × (t.team_id ≡ p.team_id) × (t.user_id ≡ user_id))

abbrev pub Owns : Database → ℕ → ℕ → Type 0
Owns db id user_id =
    (r : Repository) × (first (λ r. r.id == id) db.repositories ≡ some r) × (r.user_id ≡ user_id)

-- The user's row exists, and the user is an administrator, owns the repository or is granted the right.
abbrev pub Entitled : Right → Database → ℕ → ℕ → Type 0
Entitled a db id user_id =
    (u : User) × (first (λ u. u.id == user_id) db.users ≡ some u)
    × ((str_eq u.role "admin" ≡ true) ⊎ (Owns db id user_id ⊎ TeamGrants a db id user_id))

-- The flag of the loop that answers for a right.
abbrev flag : Right → Bool → Bool → Bool → Bool
flag reading r w x = r
flag writing r w x = w
flag executing r w x = x

raised : (b c d : Bool) → ((if b then true else c) || d) ≡ (c || (b || d))
raised true true d = refl
raised true false d = refl
raised false c d = refl

grant-any :
    (a : Right) (ps : List Permission) (r w x : Bool)
    → holds a (grant ps r w x) ≡ (flag a r w x || any (λ p. holds a p.perms) ps)
unfolding grant
grant-any reading [] r w x = ground (arith)
grant-any writing [] r w x = ground (arith)
grant-any executing [] r w x = ground (arith)
grant-any reading (p ∷ ps) r w x = grant-any reading ps _ _ _ ∙ raised p.perms.read r _
grant-any writing (p ∷ ps) r w x = grant-any writing ps _ _ _ ∙ raised p.perms.write w _
grant-any executing (p ∷ ps) r w x = grant-any executing ps _ _ _ ∙ raised p.perms.exec x _

granted :
    (a : Right) (ps : List Permission)
    → holds a (grant ps false false false) ≡ any (λ p. holds a p.perms) ps
granted reading ps = grant-any reading ps false false false
granted writing ps = grant-any writing ps false false false
granted executing ps = grant-any executing ps false false false

grant_iff :
    (a : Right) (db : Database) (id user_id : ℕ)
    → (holds a (grant (joined db id user_id) false false false) ≡ true) ↔ TeamGrants a db id user_id
unfolding joined
grant_iff a db id user_id = (
  λ h.
      let (p, m, hp) = any-Memᴰ (λ p. holds a p.perms) _ (sym (granted a _) ∙ h) in
      let (mp, kept) = keep-Memᴰ _ db.permissions m in
      let (at, member) = both_true _ _ kept in
      let (t, mt, ht) = any-Memᴰ _ db.team_users member in
      let (team, user) = both_true _ _ ht in
      (p, mp, (==_iff _ _).0 at, hp, (t, mt, (==_iff _ _).0 team, (==_iff _ _).0 user)),
  λ (p, mp, at, hp, (t, mt, team, user)).
      granted a _
      ∙ Memᴰ-any (λ p. holds a p.perms)
          (Memᴰ-keep _ mp (
            and_true ((==_iff _ _).1 at)
              (Memᴰ-any _ mt (and_true ((==_iff _ _).1 team) ((==_iff _ _).1 user)))))
          hp,
)

is_owner_iff :
    (o : Option Repository) (user_id : ℕ)
    → (is_owner o user_id ≡ true) ↔ ((r : Repository) × (o ≡ some r) × (r.user_id ≡ user_id))
unfolding is_owner
is_owner_iff none user_id = (λ h. absurd (cc), λ (r, e, h). absurd (cc))
is_owner_iff (some r) user_id =
    (λ h. (r, refl, (==_iff _ _).0 h), λ (r', e, h). (==_iff _ _).1 (cc))

holds-all_perms : (a : Right) → holds a (record { read = true; write = true; exec = true }) ≡ true
holds-all_perms reading = refl
holds-all_perms writing = refl
holds-all_perms executing = refl

abbrev rights : Bool → Bool → Perms → Perms
rights admin owner p =
    if admin
    then record { read = true; write = true; exec = true }
    else if owner
    then record { read = true; write = true; exec = true }
    else p

rights_iff :
    (a : Right) (admin owner : Bool) (p : Perms)
    → (holds a (rights admin owner p) ≡ true)
      ↔ ((admin ≡ true) ⊎ ((owner ≡ true) ⊎ (holds a p ≡ true)))
rights_iff a true owner p = (λ h. inl refl, λ h. holds-all_perms a)
rights_iff a false true p = (λ h. inr (inl refl), λ h. holds-all_perms a)
rights_iff a false false p = (
  λ h. inr (inr h),
  λ h. elim h [ inl q ↦ absurd (cc) | inr (inl q) ↦ absurd (cc) | inr (inr k) ↦ k ],
)

holds-no_perms :
    (a : Right) → ¬ (holds a (record { read = false; write = false; exec = false }) ≡ true)
holds-no_perms reading h = cc
holds-no_perms writing h = cc
holds-no_perms executing h = cc

user_permissions_iff :
    (a : Right) (db : Database) (id user_id : ℕ) (o : Option User)
    → o ≡ first (λ u. u.id == user_id) db.users
    → (holds a (user_permissions db id user_id o) ≡ true) ↔ Entitled a db id user_id
user_permissions_iff a db id user_id none e =
    (λ h. absurd (holds-no_perms a h), λ (u, e', h). absurd (cc))
user_permissions_iff a db id user_id (some u) e =
    let owner = first (λ r. r.id == id) db.repositories in
    let team = grant (joined db id user_id) false false false in
    let (split, join) = rights_iff a (str_eq u.role "admin") (is_owner owner user_id) team in
    let same : (u' : User) → first (λ u. u.id == user_id) db.users ≡ some u' → u ≡ u' =
      λ u' e'. cc in
    (
      λ h. (
        u,
        sym e,
        ⊎_map (λ q. q) (⊎_map ((is_owner_iff owner user_id).0) ((grant_iff a db id user_id).0))
            (split h),
      ),
      λ (u', e', h). join (
          ⊎_map (λ q. ap (λ v. str_eq v.role "admin") (same u' e') ∙ q)
            (⊎_map ((is_owner_iff owner user_id).1) ((grant_iff a db id user_id).1)) h),
    )

-- A user has a right on a repository exactly if the user exists and is an administrator, or owns the
-- repository, or is in a team whose permissions on this repository have the right.
pub get_permissions_iff :
    (a : Right) (db : Database) (id user_id : ℕ)
    → (holds a (get_permissions db id user_id) ≡ true) ↔ Entitled a db id user_id
unfolding get_permissions
get_permissions_iff a db id user_id = user_permissions_iff a db id user_id _ refl
