-- ===== src/Store/Sync/Ending.antt =====
-- The loop of `Sync` of server/store/provider/provider.go ends at the first page that is not full.
use abstruse.Prelude.{
  ℕ, zero, suc, ◌+◌, ◌<◌, ◌≡◌, refl, sym, ap, subst, arith, false, List, Option, some, length, ◌==◌,
  Result, ok, err, panic, ReadsOnly, and_run-same, if-holds,
}
use abstruse.Gitscm
use abstruse.Gitscm.Laws.{new-ReadsOnly}
use abstruse.Store.Database.{Database}
use abstruse.Store.Repos.Unique.{Unique}
use abstruse.Store.Sync.{
  ScmRepository, ProviderRow, Account, store_page, page_size, find_repos, go_on, sync_loop, synced,
  from_row, sync,
}
use abstruse.Store.Sync.Pages.{store_page-Unique}

-- A page that ends the loop: an error, or fewer repositories than asked for.
abbrev pub Short : Result (List ScmRepository) → Type 0
Short (ok rs) = (length rs == page_size) ≡ false
Short (err e) = Unit
Short panic = Unit

abbrev pub Ended : Option (Result (Unit {0}) × Database) → Type 0
Ended o = (r : Result (Unit {0}) × Database) × (o ≡ some r) × Unique r.1

module _ (account : Account) where
  find_repos-ReadsOnly : (id page n : ℕ) → ReadsOnly (find_repos account id page n)
  unfolding find_repos
  find_repos-ReadsOnly id page n db =
      and_run-same (account.find id db, db) _ db refl
        (λ row db.
          and_run-same (Gitscm.new account.go_scm _ _ _ db) _ db
            (new-ReadsOnly account.go_scm _ _ _ db) (λ scm db. refl))

  stopped :
      (p : ProviderRow) (next : ℕ → Database → Option (Result (Unit {0}) × Database)) (page : ℕ)
      (o : Result (List ScmRepository) × Database)
      → Unique o.1
      → Short o.0
      → Ended (go_on account p next page o)
  stopped p next page (ok rs, db) h short =
      ((ok tt, store_page p rs db), rw short refl, store_page-Unique p rs db h)
  stopped p next page (err e, db) h short = ((ok tt, db), refl, h)
  stopped p next page (panic, db) h short = ((panic, db), refl, h)

  continued :
      (p : ProviderRow) (next : ℕ → Database → Option (Result (Unit {0}) × Database)) (page : ℕ)
      (o : Result (List ScmRepository) × Database)
      → Unique o.1
      → ((db : Database) → Unique db → Ended (next (page + 1) db))
      → Ended (go_on account p next page o)
  continued p next page (ok rs, db) h k =
      let db' = store_page p rs db in
      let h' = store_page-Unique p rs db h in
      if-holds Ended (length rs == page_size) (k db' h') ((ok tt, db'), refl, h')
  continued p next page (err e, db) h k = ((ok tt, db), refl, h)
  continued p next page (panic, db) h k = ((panic, db), refl, h)

  sync_loop-Ended :
      (p : ProviderRow) (k page fuel : ℕ)
      → ((db : Database) → Short (find_repos account p.id (page + k) page_size db).0)
      → k < fuel
      → (db : Database) → Unique db
      → Ended (sync_loop account p fuel page db)
  unfolding sync_loop
  sync_loop-Ended p k page zero short lt db h = absurd (omega arith)
  sync_loop-Ended p zero page (suc fuel) short lt db h =
      stopped p (sync_loop account p fuel) page (find_repos account p.id page page_size db)
        (subst Unique (sym (find_repos-ReadsOnly p.id page page_size db)) h)
        (subst (λ n. Short (find_repos account p.id n page_size db).0) (omega arith) (short db))
  sync_loop-Ended p (suc k) page (suc fuel) short lt db h =
      continued p (sync_loop account p fuel) page (find_repos account p.id page page_size db)
        (subst Unique (sym (find_repos-ReadsOnly p.id page page_size db)) h)
        (sync_loop-Ended p k (page + 1) fuel
          (λ db.
            subst (λ n. Short (find_repos account p.id n page_size db).0) (omega arith) (short db))
          (omega arith))

  synced-Ended :
      (p : ProviderRow) (o : Option (Result (Unit {0}) × Database))
      → ((db : Database) → Unique db → Unique (account.update p db).1)
      → Ended o
      → Ended (synced account p o)
  synced-Ended p o keeps ((ok u, db), e, h) =
      (account.update p db, ap (synced account p) e, keeps db h)
  synced-Ended p o keeps ((err x, db), e, h) = ((err x, db), ap (synced account p) e, h)
  synced-Ended p o keeps ((panic, db), e, h) = ((panic, db), ap (synced account p) e, h)

  -- `Sync` ends and keeps every repository and every key once, if some page of the account is not full or
  -- an error: one round for each page up to that one is enough. The update of the provider's own row
  -- leaves the repositories alone.
  pub sync-Ended :
      (fuel id n : ℕ) (db : Database)
      → ((i : ℕ) (db : Database) → Short (find_repos account i (1 + n) page_size db).0)
      → ((p : ProviderRow) (db : Database) → Unique db → Unique (account.update p db).1)
      → n < fuel
      → Unique db
      → Ended (sync account fuel id db)
  unfolding sync
  sync-Ended fuel id n db short keeps lt h = from (account.find id db)
    where
      from : (r : Result ProviderRow) → Ended (from_row account fuel r db)
      from (ok p) = synced-Ended p _ (keeps p) (sync_loop-Ended p n 1 fuel (short p.id) lt db h)
      from (err e) = ((err e, db), refl, h)
      from panic = ((panic, db), refl, h)
