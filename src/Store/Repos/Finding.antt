-- ===== src/Store/Repos/Finding.antt =====
-- Whom `Find` of server/store/repo/repo.go gives a repository, against `GetPermissions`.
use mathlib.Core.List.{Memᴰ}
use abstruse.Prelude.{
  ℕ, ◌≡◌, inl, inr, refl, sym, ap, subst, Option-cases, either_true, ◌∙◌, true, some, ◌==◌, ==_iff,
  both_true, any-Memᴰ,
}
use abstruse.Core.{Repository}
use abstruse.Store.Database.{User, Database, first}
use abstruse.Store.Database.First.{first-Memᴰ, Memᴰ-first}
use abstruse.Store.Repos.{may_find, team_reads, with_perms, find}
use abstruse.Store.Repos.Access.{reading, TeamGrants, Entitled, get_permissions_iff}

-- A key is the key of one repository.
abbrev pub Keyed : Database → Type 0
Keyed db =
    (r q : Repository) → Memᴰ r db.repositories → Memᴰ q db.repositories → r.id ≡ q.id → r ≡ q

team_reads-TeamGrants :
    (db : Database) (id user_id : ℕ)
    → team_reads db id user_id ≡ true
    → TeamGrants reading db id user_id
unfolding team_reads
team_reads-TeamGrants db id user_id h =
    let (p, mp, hp) = any-Memᴰ _ db.permissions h in
    let (at, reads) = both_true _ _ hp in
    let (read, in_team) = both_true _ _ reads in
    let (team, mteam, hteam) = any-Memᴰ _ db.teams in_team in
    let (same, member) = both_true _ _ hteam in
    let (t, mt, ht) = any-Memᴰ _ db.team_users member in
    let (of_team, user) = both_true _ _ ht in
    (
      p,
      mp,
      (==_iff _ _).0 at,
      read,
      (t, mt, (==_iff _ _).0 of_team ∙ (==_iff _ _).0 same, (==_iff _ _).0 user),
    )

may_find-Entitled :
    (db : Database) (id user_id : ℕ) (r : Repository) (u : User)
    → Keyed db
    → Memᴰ r db.repositories
    → may_find db id user_id r ≡ true
    → first (λ u. u.id == user_id) db.users ≡ some u
    → (r.id ≡ id) × Entitled reading db r.id user_id
may_find-Entitled db id user_id r u keyed m h eu = elim (either_true _ _ h) [
  | inl owner ↦
      let (at, mine) = both_true _ _ owner in
      let (q, eq) = Memᴰ-first (λ q. q.id == r.id) r db.repositories m ((==_iff _ _).1 refl) in
      let (mq, at_q) = first-Memᴰ (λ q. q.id == r.id) db.repositories q eq in
      let same = keyed q r mq m ((==_iff _ _).0 at_q) in
      (
        (==_iff _ _).0 at,
        (u, eu, inr (inl (q, eq, ap (λ x. x.user_id) same ∙ (==_iff _ _).0 mine))),
      )
  | inr team ↦
      let (at, reads) = both_true _ _ team in
      let id_r = (==_iff r.id id).0 at in
      (
        id_r,
        (
          u,
          eu,
          inr (
              inr (
                subst (λ i. TeamGrants reading db i user_id) (sym id_r)
                  (team_reads-TeamGrants db id user_id reads))),
        ),
      )
]

some-injective : {A : Type 0} {x y : A} → some x ≡ some y → x ≡ y
some-injective e = cc

-- Whoever finds a repository by its key, with a row among the users, is told that they may read it: the
-- query of `Find` lets nobody in whom `GetPermissions` keeps out. Keys are unique.
pub find-read :
    (db : Database) (id user_id : ℕ) (r : Repository) (u : User)
    → Keyed db
    → first (λ u. u.id == user_id) db.users ≡ some u
    → find db id user_id ≡ some r
    → (r.id ≡ id) × (r.perms.read ≡ true)
unfolding find
find-read db id user_id r u keyed eu h =
    elim (Option-cases (first (may_find db id user_id) db.repositories)) [
      | inl e ↦ absurd (cc)
      | inr (row, e) ↦
          let (m, may) = first-Memᴰ (may_find db id user_id) db.repositories row e in
          let (at, entitled) = may_find-Entitled db id user_id row u keyed m may eu in
          subst (λ q. (q.id ≡ id) × (q.perms.read ≡ true))
            (some-injective (sym (ap (with_perms db user_id) e) ∙ h))
            (at, (get_permissions_iff reading db row.id user_id).1 entitled)
    ]
