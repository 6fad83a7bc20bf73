-- ===== src/Store/Database.antt =====
-- The tables that server/store/repo queries, as lists of rows in the order of their keys. `First` is the
-- first row that the conditions hold of; a failing connection is not modelled.
pub mod First
use abstruse.Prelude.{ℕ, String, Bool, List, [], ◌∷◌, map, Option, none, some, ◌==◌, if◌then◌else◌}
use abstruse.Core.{Repository, Perms}

-- The columns of core.User that are read.
pub record User : Type 0 where
  pub id : ℕ
  pub role : String

pub record Permission : Type 0 where
  pub team_id : ℕ
  pub repository_id : ℕ
  pub perms : Perms

-- A row of the table that joins teams with users.
pub record TeamUser : Type 0 where
  pub team_id : ℕ
  pub user_id : ℕ

-- `next_id` is the key that the next repository gets.
pub record Database : Type 0 where
  pub users : List User
  pub repositories : List Repository
  pub teams : List ℕ
  pub team_users : List TeamUser
  pub permissions : List Permission
  pub next_id : ℕ

unfoldable pub first {ℓ} : {A : Type ℓ} → (A → Bool) → List A → Option A
first p [] = none
first p (x ∷ xs) = let rest = first p xs in if p x then some x else rest

-- UPDATE … WHERE id = ?
unfoldable pub update_id : ℕ → (Repository → Repository) → List Repository → List Repository
update_id id f rows = map (λ r. if r.id == id then f r else r) rows
