-- ===== src/Api/Settings.antt =====
-- The handlers of server/api/repo for the settings of a repository, over the tables of
-- server/store/repo.
pub mod Entitled
use abstruse.Prelude.{ℕ, String, Bool, Option, none, some, Result, ok, err, panic}
use abstruse.Store.Database.{Database}
use abstruse.Store.Repos.{get_permissions, set_active, update_ssh_private_key}
use abstruse.Api.Answer.{Answer, success, not_found, server_error, Handler, or_render, permitted}

-- The store's error is rendered as "not found".
abbrev pub stored : Database × Option String → Answer (Unit {0}) × Database
stored (db, none) = (success tt, db)
stored (db, some e) = (not_found e, db)

-- The form is not validated; the permissions are asked for after it was read.
abbrev pub saved :
    {A : Type 0}
    → (Database → ℕ → A → Database × Option String)
    → Result ℕ
    → ℕ
    → Result A
    → Handler Database (Unit {0})
saved save address user body = or_render server_error address (λ id.
    or_render server_error body
      (λ a db. permitted (get_permissions db id user).write (λ db. stored (save db id a)) db))

unfoldable pub handle_active : Result ℕ → ℕ → Result Bool → Handler Database (Unit {0})
handle_active = saved set_active

-- `set_misc` is the store's method, whose column gorm looks up by name.
unfoldable pub handle_update_misc :
    (Database → ℕ → Bool → Database × Option String)
    → Result ℕ
    → ℕ
    → Result Bool
    → Handler Database (Unit {0})
handle_update_misc set_misc = saved set_misc

unfoldable pub handle_update_ssh_private_key :
    Result ℕ → ℕ → Result String → Handler Database (Unit {0})
handle_update_ssh_private_key = saved update_ssh_private_key
