-- ===== src/Store/Users.antt =====
-- server/store/user/user.go with internal/auth/bcrypt.go. The queries of gorm and the two calls of bcrypt
-- are parameters; a salt is taken from the outside.
pub mod Logins
use abstruse.Prelude.{
  ℕ, String, Bool, true, false, ◌&&◌, ◌==◌, not, List, Option, none, some, Result, ok, err, panic,
  Effect, ◌>>=◌, ◌>>◌, done, raise, reads, and_run, raise_if, contains, if◌then◌else◌,
}

-- The columns of core.User; the teams, which List and Find load, are not read here.
pub record User : Type 0 where
  pub id : ℕ
  pub login : String
  pub email : String
  pub password : String
  pub name : String
  pub avatar : String
  pub role : String
  pub active : Bool

-- `is_not_found` is errors.Is with gorm.ErrRecordNotFound, on the error's text; `compare` has bcrypt's
-- order, the hash first.
pub record Outside (S : Type 0) : Type 0 where
  pub by_id : ℕ → S → User × Option String
  pub by_name : String → S → User × Option String
  pub by_role : String → S → User × Option String
  pub users : S → List User × Option String
  pub insert : User → Effect S (Unit {0})
  pub updates : User → Effect S (Unit {0})
  pub remove : User → Effect S (Unit {0})
  pub is_not_found : String → Bool
  pub default_cost : ℕ
  pub generate : String → ℕ → Effect S String
  pub compare : String → String → Option String

pub record Password : Type 0 where
  pub password : String
  pub cost : ℕ

unfoldable pub humanize : String → String
humanize e =
    if contains e "1062" && contains e "login"
    then "login already exists"
    else if contains e "1062" && contains e "email"
    then "email already exists"
    else e

-- What a caller goes on with: the first result if there is no error.
abbrev pub answered : {A : Type 0} → A × Option String → Result A
answered (a, none) = ok a
answered (a, some e) = err e

abbrev pub humanized : {S A : Type 0} → Result A × S → Result A × S
humanized (ok a, t) = (ok a, t)
humanized (err e, t) = (err (humanize e), t)
humanized (panic, t) = (panic, t)

module _ {S : Type 0} (outside : Outside S) where
  unfoldable pub hash_password : Password → Effect S String
  hash_password passwd =
      outside.generate passwd.password
        (if passwd.cost == 0 then outside.default_cost else passwd.cost)

  unfoldable pub check_password_hash : String → String → Bool
  check_password_hash password hash = elim (outside.compare hash password) [
    | none ↦ true
    | some _ ↦ false
  ]

  unfoldable pub find : ℕ → Effect S User
  find id = reads (λ s. answered (outside.by_id id s))

  unfoldable pub find_email_or_login : String → Effect S User
  find_email_or_login pattern = reads (λ s. answered (outside.by_name pattern s))

  unfoldable pub list : Effect S (List User)
  list = reads (λ s. answered (outside.users s))

  unfoldable pub update : User → Effect S (Unit {0})
  update user s = humanized (outside.updates user s)

  unfoldable pub create : User → Effect S (Unit {0})
  create user = do
    hash ← hash_password (record { password = user.password; cost = 0 })
    λ s. humanized (outside.insert (record user { password = hash }) s)

  unfoldable pub update_password : ℕ → String → String → Effect S (Unit {0})
  update_password id curr password = do
    user ← find id
    raise_if (not (check_password_hash curr user.password)) "invalid current password"
    hash ← hash_password (record { password = password; cost = 0 })
    update (record user { password = hash })

  unfoldable pub delete : User → Effect S (Unit {0})
  delete user = outside.remove user

  unfoldable pub login : String → String → S → Bool
  login email password s = elim (outside.by_name email s).1 [
    | none ↦ check_password_hash password (outside.by_name email s).0.password
    | some _ ↦ false
  ]

  unfoldable pub admin_exists : S → Bool
  admin_exists s = elim (outside.by_role "admin" s).1 [
    | none ↦ true
    | some e ↦ not (outside.is_not_found e)
  ]
