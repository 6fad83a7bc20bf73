-- ===== src/Tests/Handlers.antt =====
-- The handlers of the accounts, the providers and the settings at concrete inputs.
use abstruse.Prelude.{ℕ, ◌≡◌, ◌↔◌, String, true, none, Result, ok}
use abstruse.Store.Teams.{find_user}
use abstruse.Store.Users
use abstruse.Store.Users.{check_password_hash, find}
use abstruse.Api.Answer.{form, success}
use abstruse.Api.Answer.Spared.{Spares}
use abstruse.Api.Teams
use abstruse.Api.Accounts
use abstruse.Api.Accounts.{UserForm, LoginForm, claims_of}
use abstruse.Api.Accounts.Admins.{MayChange, handle-AdminOnly}
use abstruse.Api.Accounts.Tokens.{handle_login_iff}
use abstruse.Api.Providers
use abstruse.Api.Providers.{ProviderForm, ProviderFields, ProviderBackend}
use abstruse.Api.Settings.{handle_active, handle_update_misc, handle_update_ssh_private_key}
use abstruse.Api.Settings.Entitled.{MayWrite, settings-Spares}
use abstruse.Store.Repos.{set_active}
use abstruse.Auth.Claims.{UserClaims}
use abstruse.Tests.Access.{rows}
use abstruse.Tests.Accounts.{one_user, admin}
use abstruse.Tests.Teams.{tables, team_form}

abbrev account_form : UserForm
account_form = record {
  id = 1;
  login = "admin";
  email = "a@b";
  password = "";
  name = "Admin";
  avatar = "";
  role = "admin";
  active = true;
}

abbrev sign : UserClaims → Result String
sign c = ok c.login

abbrev gitea : ProviderFields
gitea = record {
  id = 1;
  name = "gitea";
  url = "";
  host = "";
  access_token = "";
  secret = "";
  user_id = 1;
}

abbrev providers : ProviderBackend Users.User
providers = record {
  role = λ id s. ok s.role;
  find = λ id s. ok gitea;
  create = λ p s. (ok 2, s);
  update = λ p s. (ok tt, s);
  delete = λ p s. (ok tt, s);
  sync = λ id s. (ok tt, s);
}

abbrev provider_form : ProviderForm
provider_form = record {
  id = 1;
  name = "gitea";
  url = "";
  host = "";
  access_token = "";
  secret = "";
}

handle-AdminOnly_example :
    Spares
      (Teams.handle_create 2 (form team_form))
      tables
      (Teams.role_of (find_user 2 tables).0 ≡ ok "admin")
    × Spares
        (Teams.handle_update 2 (form team_form))
        tables
        (Teams.role_of (find_user 2 tables).0 ≡ ok "admin")
    × Spares
        (Accounts.handle_create one_user sign 2 (form account_form))
        admin
        (Accounts.role_of (find one_user 2 admin).0 ≡ ok "admin")
    × Spares
        (Accounts.handle_update one_user sign 2 (form account_form))
        admin
        (Accounts.role_of (find one_user 2 admin).0 ≡ ok "admin")
    × Spares
        (Providers.handle_update providers 2 (form provider_form))
        admin
        ((f : ProviderForm) × (form provider_form ≡ form f) × MayChange providers 2 f.id admin)
    × Spares
        (Providers.handle_delete providers 2 (ok 1))
        admin
        ((id : ℕ) × (ok 1 ≡ ok id) × MayChange providers 2 id admin)
handle-AdminOnly_example =
    handle-AdminOnly one_user sign 2 providers (form team_form) (form account_form)
      (form provider_form) (ok 1) tables admin

abbrev login_form : LoginForm
login_form = record { email = "a@b"; password = "old" }

handle_login_iff_example :
    (Accounts.handle_login one_user sign (ok login_form) admin ≡ (success "admin", admin)) ↔ (
      (one_user.by_name "a@b" admin).1 ≡ none
      × (check_password_hash one_user "old" admin.password ≡ true)
      × (sign (claims_of admin) ≡ ok "admin"))
handle_login_iff_example = handle_login_iff one_user sign login_form admin "admin"

settings-Spares_example :
    Spares (handle_active (ok 7) 2 (ok true)) rows (MayWrite (ok 7) 2 rows)
    × Spares (handle_update_misc set_active (ok 7) 2 (ok true)) rows (MayWrite (ok 7) 2 rows)
    × Spares (handle_update_ssh_private_key (ok 7) 2 (ok "key")) rows (MayWrite (ok 7) 2 rows)
settings-Spares_example = settings-Spares set_active (ok 7) 2 (ok true) (ok "key") rows
