-- ===== src/Api/Env.antt =====
-- The handlers of server/api/repo for the environment variables of a repository, over the rows of
-- server/store/env.
pub mod Secrets
use abstruse.Prelude.{
  ℕ, String, Bool, true, false, List, [], ◌∷◌, str_eq, Result, Effect, map, if◌then◌else◌, not,
}
use abstruse.Core.{Perms}
use abstruse.Api.Answer.{
  Body, Answer, unauthorized, not_found, server_error, Handler, with_body, or_render,
  or_render_after, permitted, render_json,
}

-- core.EnvVariable with its keys
pub record EnvRow : Type 0 where
  pub id : ℕ
  pub key : String
  pub value : String
  pub secret : Bool
  pub repository_id : ℕ

-- The forms of HandleCreateEnv and HandleUpdateEnv; the first has no key.
pub record EnvForm : Type 0 where
  pub id : ℕ
  pub key : String
  pub value : String
  pub secret : Bool

-- A create gives the key of the new row.
pub record EnvBackend (S : Type 0) : Type 0 where
  pub permissions : ℕ → ℕ → S → Perms
  pub find : ℕ → S → Result EnvRow
  pub list : ℕ → S → Result (List EnvRow)
  pub create : EnvRow → Effect S ℕ
  pub update : EnvRow → Effect S (Unit {0})
  pub delete : EnvRow → Effect S (Unit {0})

-- `if env.Secret { envs[i].Value = "" }`
unfoldable pub hide : EnvRow → EnvRow
hide env = if env.secret then record env { value = "" } else env

unfoldable pub new_env : ℕ → EnvForm → EnvRow
new_env id f = record {
  id = 0;
  key = f.key;
  value = f.value;
  secret = f.secret;
  repository_id = id;
}

unfoldable pub changed : EnvRow → EnvForm → EnvRow
changed env f = record env {
  key = f.key;
  secret = f.secret;
  value = if not (str_eq f.value "") then f.value else env.value;
}

-- `address` is the repository's key in the address, or strconv.Atoi's error; `user` is of the claims.
module _ {S : Type 0} (backend : EnvBackend S) where
  abbrev pub shown_list : ℕ → Handler S (List EnvRow)
  shown_list id s =
      or_render server_error (backend.list id s) (λ envs. render_json (map hide envs)) s

  unfoldable pub handle_list_env : Result ℕ → ℕ → Handler S (List EnvRow)
  unfolding hide
  handle_list_env address user =
      or_render server_error address
        (λ id s. permitted (backend.permissions id user s).read (shown_list id) s)

  abbrev created_env : ℕ → EnvForm → Handler S EnvRow
  created_env id f s =
      or_render_after server_error (backend.create (new_env id f) s)
        (λ key. render_json (record (new_env id f) { id = key }))

  unfoldable pub handle_create_env : Result ℕ → ℕ → Body EnvForm → Handler S EnvRow
  unfolding new_env
  handle_create_env address user body = or_render server_error address (λ id.
      with_body body (λ f s. permitted (backend.permissions id user s).write (created_env id f) s))

  -- The row is found by the form's key alone.
  abbrev updated : EnvForm → Handler S EnvRow
  updated f s =
      or_render not_found (backend.find f.id s)
        (λ env s.
          or_render_after server_error (backend.update (changed env f) s)
            (λ _. render_json (changed env f)))
        s

  unfoldable pub handle_update_env : Result ℕ → ℕ → Body EnvForm → Handler S EnvRow
  unfolding changed
  handle_update_env address user body =
      or_render server_error address (λ id.
        with_body body (λ f s. permitted (backend.permissions id user s).write (updated f) s))

  abbrev deleted : Result ℕ → Handler S (Unit {0})
  deleted env_id = or_render server_error env_id (λ env_id s.
      or_render server_error (backend.find env_id s)
        (λ env s. or_render_after server_error (backend.delete env s) render_json) s)

  unfoldable pub handle_delete_env : Result ℕ → ℕ → Result ℕ → Handler S (Unit {0})
  handle_delete_env address user env_id =
      or_render server_error address
        (λ id s. permitted (backend.permissions id user s).write (deleted env_id) s)
