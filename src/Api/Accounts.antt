-- ===== src/Api/Accounts.antt =====
-- The handlers of server/api/user and server/api/setup over the store of users: logins, profiles, and
-- the accounts that an admin manages.
pub mod Tokens
pub mod Entered
pub mod Admins
use abstruse.Prelude.{
  ℕ, String, Bool, true, false, List, [], ◌∷◌, str_eq, not, Option, none, some, Result, ok, err,
  panic, Effect, pure, lift, reads, ◌>>=◌, ◌>>◌, if◌then◌else◌, ltb, length,
}
use abstruse.Auth.Claims.{UserClaims}
use abstruse.Store.Users.{
  User, Outside, answered, find, find_email_or_login, list, create, update, update_password, login,
  hash_password,
}
use abstruse.Api.Answer.{
  Body, Answer, unauthorized, not_found, server_error, bad_request, Handler, with_body, or_render,
  or_render_after, render_json, only_admin,
}

-- The forms of HandleCreate, HandleUpdate, HandleUpdateProfile and of the setup, each with the fields
-- that it reads.
pub record UserForm : Type 0 where
  pub id : ℕ
  pub login : String
  pub email : String
  pub password : String
  pub name : String
  pub avatar : String
  pub role : String
  pub active : Bool

pub record LoginForm : Type 0 where
  pub email : String
  pub password : String

pub record PasswordForm : Type 0 where
  pub current : String
  pub new : String

-- `user.Claims()`
unfoldable pub claims_of : User → UserClaims
claims_of u = record {
  id = u.id;
  login = u.login;
  email = u.email;
  name = u.name;
  avatar = u.avatar;
  role = u.role;
}

unfoldable pub new_user : UserForm → User
new_user f = record {
  id = 0;
  login = f.login;
  email = f.email;
  password = f.password;
  name = f.name;
  avatar = f.avatar;
  role = f.role;
  active = false;
}

-- HandleUpdateProfile fills no other column.
unfoldable pub profile : ℕ → UserForm → User
profile id f = record {
  id = id;
  login = f.login;
  email = f.email;
  password = "";
  name = f.name;
  avatar = f.avatar;
  role = "";
  active = false;
}

abbrev pub edited : UserForm → User → User
edited f u = record u {
  login = f.login;
  email = f.email;
  name = f.name;
  avatar = f.avatar;
  role = f.role;
}

abbrev pub role_of : Result User → Result String
role_of (ok u) = ok u.role
role_of (err e) = err e
role_of panic = panic

-- `sign` is CreateJWT with the server's secret at the time of the request.
module _ {S : Type 0} (outside : Outside S) (sign : UserClaims → Result String) where
  abbrev pub answer_with : {A : Type 0} → Effect S A → Handler S A
  answer_with m s = or_render_after server_error (m s) render_json

  -- The user is read twice, and the error of the second reading is dropped.
  unfoldable pub handle_login : Result LoginForm → Handler S String
  handle_login body = or_render server_error body (λ f s.
      if login outside f.email f.password s
      then or_render server_error (sign (claims_of (outside.by_name f.email s).0)) render_json s
      else (unauthorized "invalid credentials", s))

  -- `request` is what govalidator says of the request: it is not given the form.
  unfoldable pub handle_password : ℕ → Result PasswordForm → Option String → Handler S (Unit {0})
  handle_password user body request = or_render server_error body (λ f s. elim request [
    | some e ↦ (bad_request e, s)
    | none ↦ answer_with (update_password outside user f.current f.new) s
  ])

  unfoldable pub handle_profile : ℕ → Handler S User
  handle_profile user s = or_render not_found (find outside user s).0 render_json s

  unfoldable pub handle_list : Handler S (List User)
  handle_list s = or_render server_error (list outside s).0 render_json s

  unfoldable pub update_profile : ℕ → UserForm → Effect S String
  update_profile user f =
      update outside (profile user f) >> (find outside user >>= λ u. lift (sign (claims_of u)))

  unfoldable pub handle_update_profile : ℕ → Body UserForm → Handler S String
  handle_update_profile user body = with_body body (λ f. answer_with (update_profile user f))

  -- The user that is rendered has its key too; the hash is not rendered.
  abbrev created : UserForm → Handler S User
  created f = answer_with (create outside (new_user f) >> pure (new_user f))

  unfoldable pub handle_create : ℕ → Body UserForm → Handler S User
  unfolding new_user
  handle_create user body s =
      only_admin (role_of (find outside user s).0) (with_body body created) s

  -- The initial user of the setup.
  unfoldable pub handle_user : Body UserForm → Handler S (Unit {0})
  handle_user body =
      with_body body (λ f. answer_with (create outside (record (new_user f) { active = f.active })))

  -- `if f.Password != "" { … user.Password = hash }`
  unfoldable pub with_password : UserForm → User → Effect S User
  with_password f u =
      if not (str_eq f.password "")
      then (hash_password outside (record { password = f.password; cost = 0 }) >>= λ hash.
          pure (record u { password = hash }))
      else pure u

  unfoldable pub update_user : UserForm → User → Effect S String
  update_user f u =
      with_password f (edited f u) >>= λ u. update outside u >> lift (sign (claims_of u))

  abbrev pub update_found : UserForm → Handler S String
  update_found f s =
      or_render not_found (find outside f.id s).0 (λ u. answer_with (update_user f u)) s

  unfoldable pub handle_update : ℕ → Body UserForm → Handler S String
  handle_update user body s =
      only_admin (role_of (find outside user s).0) (with_body body update_found) s

  -- Whether there is a user: `len(res) > 0`.
  unfoldable pub handle_ready : Handler S Bool
  handle_ready s =
      or_render server_error (list outside s).0 (λ us. render_json (ltb 0 (length us))) s
