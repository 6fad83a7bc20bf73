-- ===== src/Api/Settings/Entitled.antt =====
-- Who changes the settings of a repository.
use abstruse.Prelude.{ℕ, ◌≡◌, inr, String, Bool, Option, Result, ok}
use abstruse.Store.Database.{Database}
use abstruse.Store.Repos.Access.{writing, Entitled, get_permissions_iff}
use abstruse.Api.Answer.Spared.{Spares, or_render-Spares, permitted-Spares}
use abstruse.Api.Settings.{
  saved, stored, handle_active, handle_update_misc, handle_update_ssh_private_key,
}

-- The address names a repository that the user is entitled to write to.
abbrev pub MayWrite : Result ℕ → ℕ → Database → Type 0
MayWrite address user db = (id : ℕ) × (address ≡ ok id) × Entitled writing db id user

saved-Spares :
    {A : Type 0} (save : Database → ℕ → A → Database × Option String) (address : Result ℕ)
    (user : ℕ) (body : Result A) (db : Database)
    → Spares (saved save address user body) db (MayWrite address user db)
saved-Spares save address user body db = or_render-Spares _ _ address _ db (λ id e.
    or_render-Spares _ _ body _ db (λ a f.
      permitted-Spares _ _ (λ db. stored (save db id a)) db
        (λ may. inr (id, e, (get_permissions_iff writing db id user).0 may))))

-- Whatever the request is, the three settings of a repository change only for a user who has a row and is an
-- admin, owns the repository, or is in a team whose permissions let it write to the repository.
pub settings-Spares :
    (set_misc : Database → ℕ → Bool → Database × Option String) (address : Result ℕ) (user : ℕ)
    (flag : Result Bool) (key : Result String) (db : Database)
    → Spares (handle_active address user flag) db (MayWrite address user db)
      × Spares (handle_update_misc set_misc address user flag) db (MayWrite address user db)
      × Spares (handle_update_ssh_private_key address user key) db (MayWrite address user db)
unfolding handle_active handle_update_misc handle_update_ssh_private_key
settings-Spares set_misc address user flag key db = (
  saved-Spares _ address user flag db,
  saved-Spares _ address user flag db,
  saved-Spares _ address user key db,
)
