-- ===== src/Api/Env/Secrets.antt =====
-- What the handlers of server/api/repo show of the secret environment variables.
use abstruse.Prelude.{
  ℕ, String, ◌≡◌, refl, Bool, true, false, List, [], ◌∷◌, map, All, Result, ok, err, panic,
  if◌then◌else◌,
}
use abstruse.Api.Answer.{
  Answer, success, unauthorized, permitted, or_render, server_error, render_json,
}
use abstruse.Api.Env.{EnvRow, EnvBackend, hide, shown_list, handle_list_env}

-- The value of a row if it is secret.
abbrev pub secret_value : EnvRow → String
secret_value env = if env.secret then env.value else ""

-- With the right to read, an answer whose rows show no secret's value; without it, a refusal.
abbrev pub Hides : Bool → Answer (List EnvRow) → Type 0
Hides true (success envs) = All (λ env. secret_value env ≡ "") envs
Hides true _ = Unit
Hides false answer = answer ≡ unauthorized "permission denied"

hide-secret_value : (env : EnvRow) → secret_value (hide env) ≡ ""
unfolding hide
hide-secret_value env = from env.secret refl
  where
    from :
        (b : Bool)
        → env.secret ≡ b
        → secret_value (if b then record env { value = "" } else env) ≡ ""
    from true e = rw e refl
    from false e = rw e refl

All-hide : (envs : List EnvRow) → All (λ env. secret_value env ≡ "") (map hide envs)
All-hide [] = tt
All-hide (env ∷ envs) = (hide-secret_value env, All-hide envs)

module _ {S : Type 0} (backend : EnvBackend S) where
  listed_envs :
      (r : Result (List EnvRow)) (s : S)
      → Hides true (or_render server_error r (λ envs. render_json (map hide envs)) s).0
  listed_envs (ok envs) s = All-hide envs
  listed_envs (err e) s = tt
  listed_envs panic s = tt

  -- Whoever asks for the variables of a repository and may read it is shown no value of a secret one, and
  -- whoever may not read it is refused.
  pub handle_list_env-Hides :
      (id user : ℕ) (s : S)
      → Hides (backend.permissions id user s).read (handle_list_env backend (ok id) user s).0
  unfolding handle_list_env
  handle_list_env-Hides id user s = shown (backend.permissions id user s).read
    where
      shown : (b : Bool) → Hides b (permitted b (shown_list backend id) s).0
      shown true = listed_envs (backend.list id s) s
      shown false = refl
