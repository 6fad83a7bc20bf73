-- ===== src/Store/Sync/Pages.antt =====
-- `Sync` of server/store/provider/provider.go ends, keeps every repository once, stores those that the
-- user administers, and never changes a row.
use mathlib.Core.List.{Memᴰ}
use mathlib.Core.List.Memᴰ
use abstruse.Prelude.{
  ℕ, ◌≡◌, ◌∙◌, refl, sym, ap, subst, Bool, true, false, List, [], ◌∷◌, Option, none, some, any,
  Memᴰ-any, any-Memᴰ, eq_refl, and_true, if◌then◌else◌, if-holds, or_true_left, or_true_right,
}
use abstruse.Core.{Repository}
use abstruse.Store.Database.{Database, first}
use abstruse.Store.Database.First.{first-Memᴰ, Memᴰ-first}
use abstruse.Store.Repos.{same_key, put, create, create_or_update}
use abstruse.Store.Repos.Unique.{
  Unique, any-append, create_or_update_found, create_or_update-Unique,
}
use abstruse.Store.Sync.{ScmRepository, ProviderRow, convert_repo, repository_row, store_page}

pub store_page-Unique :
    (p : ProviderRow) (rs : List ScmRepository) (db : Database)
    → Unique db
    → Unique (store_page p rs db)
unfolding store_page
store_page-Unique p [] db h = h
store_page-Unique p (r ∷ rs) db h =
    store_page-Unique p rs _ (
      if-holds Unique (convert_repo r).1.admin (create_or_update-Unique db (repository_row p r) h)
        h)

-- The table has a row for every repository of the list that the user administers.
abbrev pub Known : ProviderRow → List ScmRepository → Database → Type 0
Known p rs db =
    (r : ScmRepository)
    → Memᴰ r rs
    → r.perm.admin ≡ true
    → any (same_key (repository_row p r)) db.repositories ≡ true

-- A page whose repositories are in the table leaves the table as it is, also where the provider reports
-- another name, address or default branch for them: `CreateOrUpdate` never updates a row.
pub store_page-Known :
    (p : ProviderRow) (rs : List ScmRepository) (db : Database)
    → Unique db
    → Known p rs db
    → store_page p rs db ≡ db
unfolding store_page convert_repo
store_page-Known p [] db h k = refl
store_page-Known p (r ∷ rs) db h k =
    ap (store_page p rs) (skipped r.perm.admin (k r (Memᴰ.head refl)))
    ∙ store_page-Known p rs db h (λ q m. k q (Memᴰ.tail m))
  where
    skipped :
        (b : Bool)
        → (b ≡ true → any (same_key (repository_row p r)) db.repositories ≡ true)
        → (if b then create_or_update db (repository_row p r) else db) ≡ db
    skipped true there =
        let (q, m, same) = any-Memᴰ _ db.repositories (there refl) in
        let (row, e) = Memᴰ-first (same_key (repository_row p r)) q db.repositories m same in
        create_or_update_found db (repository_row p r) row h e
    skipped false there = refl

-- A row with the key of `q` stays in the table.
abbrev Holds : Repository → Database → Type 0
Holds q db = any (same_key q) db.repositories ≡ true

put-Holds :
    (db : Database) (repo q : Repository) (o : Option Repository)
    → Unique db
    → first (same_key repo) db.repositories ≡ o
    → Holds q db
    → Holds q (create_or_update db repo)
unfolding create_or_update create
put-Holds db repo q none h e k = subst (Holds q) (sym (ap (put db repo) e)) (
    let (r, m, same) = any-Memᴰ (same_key q) db.repositories k in
    any-append (same_key q) db.repositories _ ∙ or_true_left _ k)
put-Holds db repo q (some row) h e k =
    subst (Holds q) (sym (create_or_update_found db repo row h e)) k

same_key_refl : (r : Repository) (id : ℕ) → same_key r (record r { id = id }) ≡ true
unfolding same_key
same_key_refl r id = and_true (eq_refl r.uid) (eq_refl r.clone)

put-here :
    (db : Database) (repo : Repository) (o : Option Repository)
    → Unique db
    → first (same_key repo) db.repositories ≡ o
    → Holds repo (create_or_update db repo)
unfolding create_or_update create
put-here db repo none h e = subst (Holds repo) (sym (ap (put db repo) e)) (
    any-append (same_key repo) db.repositories _
    ∙ or_true_right _ (or_true_left false (same_key_refl repo db.next_id)))
put-here db repo (some row) h e =
    let (m, same) = first-Memᴰ (same_key repo) db.repositories row e in
    subst (Holds repo) (sym (create_or_update_found db repo row h e))
      (Memᴰ-any (same_key repo) m same)

store_page-Holds :
    (p : ProviderRow) (rs : List ScmRepository) (db : Database) (q : Repository)
    → Unique db
    → Holds q db
    → Holds q (store_page p rs db)
unfolding store_page
store_page-Holds p [] db q h k = k
store_page-Holds p (r ∷ rs) db q h k =
    let row = repository_row p r in
    store_page-Holds p rs _ q
      (if-holds Unique (convert_repo r).1.admin (create_or_update-Unique db row h) h)
      (if-holds (Holds q) (convert_repo r).1.admin (put-Holds db row q _ h refl k) k)

-- A page leaves a row for every repository on it that the user administers.
pub store_page_stored :
    (p : ProviderRow) (rs : List ScmRepository) (db : Database)
    → Unique db
    → (r : ScmRepository) → Memᴰ r rs
    → r.perm.admin ≡ true
    → any (same_key (repository_row p r)) (store_page p rs db).repositories ≡ true
unfolding store_page convert_repo
store_page_stored p [] db h r m admin = absurd (Memᴰ.not-nil m)
store_page_stored p (x ∷ rs) db h r (Memᴰ.head e) admin =
    let row = repository_row p x in
    subst (λ q. Holds (repository_row p q) (store_page p (x ∷ rs) db)) (sym e)
      (store_page-Holds p rs _ row
        (if-holds Unique x.perm.admin (create_or_update-Unique db row h) h)
        (subst (λ b. Holds row (if b then create_or_update db row else db))
          (sym (ap (λ q. q.perm.admin) (sym e) ∙ admin)) (put-here db row _ h refl)))
store_page_stored p (x ∷ rs) db h r (Memᴰ.tail m) admin =
    store_page_stored p rs _
      (if-holds Unique x.perm.admin (create_or_update-Unique db (repository_row p x) h) h) r m admin
