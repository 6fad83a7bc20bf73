-- ===== src/Api/Mounts.antt =====
-- The handlers of server/api/repo for the mounts of a repository, over the rows of server/store/mount.
use abstruse.Prelude.{ℕ, String, Bool, List, Result, Effect}
use abstruse.Core.{Perms}
use abstruse.Api.Answer.{
  Body, not_found, server_error, Handler, with_body, or_render, or_render_after, permitted,
  render_json,
}

-- core.Mount with its keys
pub record MountRow : Type 0 where
  pub id : ℕ
  pub host : String
  pub container : String
  pub repository_id : ℕ

-- The forms of HandleCreateMount and HandleUpdateMount; the first has no key.
pub record MountForm : Type 0 where
  pub id : ℕ
  pub host : String
  pub container : String

-- A create gives the key of the new row.
pub record MountBackend (S : Type 0) : Type 0 where
  pub permissions : ℕ → ℕ → S → Perms
  pub find : ℕ → S → Result MountRow
  pub list : ℕ → S → Result (List MountRow)
  pub create : MountRow → Effect S ℕ
  pub update : MountRow → Effect S (Unit {0})
  pub delete : MountRow → Effect S (Unit {0})

unfoldable pub new_mount : ℕ → MountForm → MountRow
new_mount id f = record { id = 0; host = f.host; container = f.container; repository_id = id }

abbrev pub moved_mount : MountRow → MountForm → MountRow
moved_mount mnt f = record mnt { host = f.host; container = f.container }

-- `address` is the repository's key in the address, or strconv.Atoi's error; `user` is of the claims.
module _ {S : Type 0} (backend : MountBackend S) where
  abbrev pub may_write : ℕ → ℕ → S → Bool
  may_write id user s = (backend.permissions id user s).write

  unfoldable pub handle_list_mount : Result ℕ → ℕ → Handler S (List MountRow)
  handle_list_mount address user = or_render server_error address (λ id s.
      permitted (backend.permissions id user s).read
        (λ s. or_render server_error (backend.list id s) render_json s) s)

  abbrev created_mount : ℕ → MountForm → Handler S MountRow
  created_mount id f s =
      or_render_after server_error (backend.create (new_mount id f) s)
        (λ key. render_json (record (new_mount id f) { id = key }))

  unfoldable pub handle_create_mount : Result ℕ → ℕ → Body MountForm → Handler S MountRow
  unfolding new_mount
  handle_create_mount address user body =
      or_render server_error address
        (λ id. with_body body (λ f s. permitted (may_write id user s) (created_mount id f) s))

  -- The row is found by the form's key alone.
  abbrev updated_mount : MountForm → Handler S MountRow
  updated_mount f s =
      or_render not_found (backend.find f.id s)
        (λ mnt s.
          or_render_after server_error (backend.update (moved_mount mnt f) s)
            (λ _. render_json (moved_mount mnt f)))
        s

  unfoldable pub handle_update_mount : Result ℕ → ℕ → Body MountForm → Handler S MountRow
  handle_update_mount address user body =
      or_render server_error address
        (λ id. with_body body (λ f s. permitted (may_write id user s) (updated_mount f) s))

  abbrev deleted_mount : Result ℕ → Handler S (Unit {0})
  deleted_mount mount_id = or_render server_error mount_id (λ mount_id s.
      or_render server_error (backend.find mount_id s)
        (λ mnt s. or_render_after server_error (backend.delete mnt s) render_json) s)

  unfoldable pub handle_delete_mount : Result ℕ → ℕ → Result ℕ → Handler S (Unit {0})
  handle_delete_mount address user mount_id =
      or_render server_error address
        (λ id s. permitted (may_write id user s) (deleted_mount mount_id) s)
