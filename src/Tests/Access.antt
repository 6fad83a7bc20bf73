-- ===== src/Tests/Access.antt =====
-- The theorems on the repositories' store at concrete inputs.
use mathlib.Core.List.{Memᴰ}
use mathlib.Core.List.Memᴰ
use abstruse.Prelude.{
  any, ◌==◌, ℕ, ◌+◌, ◌≡◌, ◌↔◌, refl, sym, subst, arith, String, true, false, [], ◌∷◌, Option, none,
  some, ok,
}
use abstruse.Scheduler.Builds.{FoundBuild}
use abstruse.Store.Database.{Database, first}
use abstruse.Store.Repos.{same_key, get_permissions, find}
use abstruse.Store.Repos.Access.{reading, holds, Entitled, get_permissions_iff}
use abstruse.Store.Repos.Finding.{Keyed, find-read}
use abstruse.Store.Repos.Unique.{Unique, Alone-id}
use abstruse.Store.Sync.{
  ScmRepository, ProviderRow, Account, repository_row, page_size, store_page, find_repos, sync,
}
use abstruse.Store.Sync.Pages.{Known, store_page-Known}
use abstruse.Store.Sync.Ending.{Short, Ended, sync-Ended}
use abstruse.Gitscm.{new}
use abstruse.Store.Hooks.{filter_hooks}
use abstruse.Store.Hooks.Filter.{Filtered, filter_hooks-Filtered}
use abstruse.Store.Status.{Queries, find_status, reference_status, find_status-reference}
use abstruse.Tests.Data.{repository, build, job}
use abstruse.Tests.Storing.{go_scm}

-- User 2 is in team 9, which may read repository 7 of user 1.
abbrev pub rows : Database
rows = record {
  users = record { id = 2; role = "user" } ∷ [];
  repositories = repository ∷ [];
  teams = 9 ∷ [];
  team_users = record { team_id = 9; user_id = 2 } ∷ [];
  permissions =
      record {
        team_id = 9;
        repository_id = 7;
        perms = record { read = true; write = false; exec = false };
      }
      ∷ [];
  next_id = 8;
}

get_permissions_iff_example :
    (holds reading (get_permissions rows 7 2) ≡ true) ↔ Entitled reading rows 7 2
get_permissions_iff_example = get_permissions_iff reading rows 7 2

unique : Unique rows
unique = (omega arith, refl, refl, tt)

keyed : Keyed rows
keyed r q mr mq e = Alone-id 8 (repository ∷ []) r q unique mr mq e

member : first (λ u. u.id == 2) rows.users ≡ some (record { id = 2; role = "user" })
unfolding first
member = refl

seen :
    find rows 7 2
    ≡ some (record repository { perms = record { read = true; write = false; exec = false } })
unfolding find get_permissions first
seen = refl

find-read_example : (repository.id ≡ 7) × (true ≡ true)
find-read_example =
    find-read rows 7 2
      (record repository { perms = record { read = true; write = false; exec = false } })
      (record { id = 2; role = "user" }) keyed member seen

abbrev renamed : ScmRepository
renamed = record {
  id = "77";
  namespace = "bleenco";
  name = "renamed";
  perm = record { pull = true; push = true; admin = true };
  branch = "main";
  private = false;
  clone = "https://github.com/bleenco/abstruse.git";
  clone_ssh = "";
  link = "";
}

abbrev row : ProviderRow
row = record { id = 1; user_id = 1; provider = repository.provider }

has_row : any (same_key (repository_row row renamed)) rows.repositories ≡ true
unfolding same_key repository_row
has_row = refl

known : Known row (renamed ∷ []) rows
known r (Memᴰ.head e) admin =
    subst (λ r. any (same_key (repository_row row r)) rows.repositories ≡ true) (sym e) has_row
known r (Memᴰ.tail m) admin = absurd (Memᴰ.not-nil m)

-- A renamed repository keeps its old name.
store_page-Known_example : store_page row (renamed ∷ []) rows ≡ rows
store_page-Known_example = store_page-Known row (renamed ∷ []) rows unique known

-- An account of one page.
abbrev account : Account
account = record {
  go_scm = go_scm;
  list = λ scm page n db. ok (renamed ∷ []);
  find = λ id db. ok row;
  update = λ p db. (ok tt, db);
}

short : (i : ℕ) (db : Database) → Short (find_repos account i (1 + 0) page_size db).0
unfolding find_repos new
short i db = refl

sync-Ended_example : Ended (sync account 1 1 rows)
sync-Ended_example = sync-Ended account 1 1 0 rows short (λ p db h. h) (omega arith) unique

abbrev path_of : String → Option String
path_of url = some "/webhooks"

filter_hooks-Filtered_example :
    Filtered path_of repository.provider
      (record { id = "1"; target = "https://ci/webhooks" } ∷ [])
      (filter_hooks path_of
        (record { id = "1"; target = "https://ci/webhooks" } ∷ [])
        repository.provider)
filter_hooks-Filtered_example =
    filter_hooks-Filtered path_of repository.provider
      (record { id = "1"; target = "https://ci/webhooks" } ∷ [])

abbrev last_found : FoundBuild
last_found = record {
  build = build;
  jobs = job 1 "running" none none ∷ job 2 "failing" none none ∷ [];
}

abbrev queries : Queries Database
queries = record {
  find_token = λ token db. some repository;
  last_build = λ id branch db. ok last_found;
}

find_status-reference_example :
    find_status queries "t" "" rows ≡ ok (reference_status last_found.jobs)
find_status-reference_example =
    find_status-reference queries "t" "" rows repository last_found refl refl
