-- ===== src/Api/Providers.antt =====
-- The handlers of server/api/provider over the rows of server/store/provider.
use abstruse.Prelude.{
  ℕ, String, Bool, ◌||◌, ◌==◌, str_eq, Result, Effect, ◌>>◌, ◌>>=◌, pure, if◌then◌else◌,
}
use abstruse.Api.Answer.{
  Body, unauthorized, not_found, server_error, crashed, Handler, with_body, or_render,
  or_render_after, render_json,
}

-- core.Provider
pub record ProviderFields : Type 0 where
  pub id : ℕ
  pub name : String
  pub url : String
  pub host : String
  pub access_token : String
  pub secret : String
  pub user_id : ℕ

-- The forms of HandleCreate and HandleUpdate; the first has no key.
pub record ProviderForm : Type 0 where
  pub id : ℕ
  pub name : String
  pub url : String
  pub host : String
  pub access_token : String
  pub secret : String

-- `role` is the role of the user that users.Find gives; a create gives the key of the new row.
pub record ProviderBackend (S : Type 0) : Type 0 where
  pub role : ℕ → S → Result String
  pub find : ℕ → S → Result ProviderFields
  pub create : ProviderFields → Effect S ℕ
  pub update : ProviderFields → Effect S (Unit {0})
  pub delete : ProviderFields → Effect S (Unit {0})
  pub sync : ℕ → Effect S (Unit {0})

unfoldable pub filled : ProviderForm → ℕ → ProviderFields
filled f user = record {
  id = f.id;
  name = f.name;
  url = f.url;
  host = f.host;
  access_token = f.access_token;
  secret = f.secret;
  user_id = user;
}

unfoldable pub may_change : ℕ → String → ProviderFields → Bool
may_change user role p = p.user_id == user || str_eq role "admin"

-- The handlers' last line, `render.UnathorizedError(w, err.Error())`, with a nil err.
abbrev pub or_crash : {S A : Type 0} → Bool → Handler S A → Handler S A
or_crash allowed h s = if allowed then h s else (crashed, s)

module _ {S : Type 0} (backend : ProviderBackend S) where
  abbrev pub answer_with : {A : Type 0} → Effect S A → Handler S A
  answer_with m s = or_render_after server_error (m s) render_json

  -- The provider that both HandleUpdate and HandleDelete look at.
  unfoldable pub for_changer : {A : Type 0} → ℕ → ℕ → (ProviderFields → Handler S A) → Handler S A
  for_changer user id h s =
      or_render unauthorized (backend.role user s)
        (λ role s.
          or_render not_found (backend.find id s) (λ p. or_crash (may_change user role p) (h p)) s)
        s

  unfoldable pub handle_update : ℕ → Body ProviderForm → Handler S ProviderFields
  handle_update user body = with_body body (λ f.
      for_changer user f.id
        (λ p. answer_with (backend.update (filled f user) >> pure (filled f user))))

  unfoldable pub handle_delete : ℕ → Result ℕ → Handler S (Unit {0})
  handle_delete user address =
      or_render server_error address
        (λ id. for_changer user id (λ p. answer_with (backend.delete p)))

  abbrev created : ℕ → ProviderForm → Effect S ProviderFields
  created user f = backend.create (record (filled f user) { id = 0 }) >>= λ id.
      backend.sync id >> pure (record (filled f user) { id = id })

  unfoldable pub handle_create : ℕ → Body ProviderForm → Handler S ProviderFields
  handle_create user body = with_body body (λ f. answer_with (created user f))

  unfoldable pub handle_sync : Body ℕ → Handler S (Unit {0})
  handle_sync body = with_body body (λ id. answer_with (backend.sync id))
