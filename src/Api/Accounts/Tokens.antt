-- ===== src/Api/Accounts/Tokens.antt =====
-- Who gets a token of a user.
use abstruse.Prelude.{
  ◌≡◌, ◌↔◌, refl, String, Bool, true, false, none, Result, ok, err, panic, if◌then◌else◌,
}
use abstruse.Store.Users.{Outside, login, check_password_hash}
use abstruse.Store.Users.Logins.{login_iff}
use abstruse.Auth.Claims.{UserClaims}
use abstruse.Api.Answer.{success, unauthorized, server_error, or_render, render_json}
use abstruse.Api.Accounts.{LoginForm, claims_of, handle_login}

signed :
    {S : Type 0} (b : Bool) (r : Result String) (token : String) (s t : S)
    → (if b
        then or_render {S = S} server_error r render_json s
        else (unauthorized "invalid credentials", s))
      ≡ (success token, t)
    → (b ≡ true) × (r ≡ ok token)
signed true (ok x) token s t h = (refl, cc)
signed true (err e) token s t h = absurd (cc)
signed true panic token s t h = absurd (cc)
signed false r token s t h = absurd (cc)

module _ {S : Type 0} (outside : Outside S) (sign : UserClaims → Result String) where
  -- The login is answered with a token exactly if a user is found under the email or login that was sent,
  -- bcrypt takes the password for the hash of this user, and the token is signed for the claims of this user.
  pub handle_login_iff :
      (f : LoginForm) (s : S) (token : String)
      → (handle_login outside sign (ok f) s ≡ (success token, s)) ↔ (
          ((outside.by_name f.email s).1 ≡ none)
          × (check_password_hash outside f.password (outside.by_name f.email s).0.password ≡ true)
          × (sign (claims_of (outside.by_name f.email s).0) ≡ ok token))
  unfolding handle_login
  handle_login_iff f s token = (
    λ h.
        let (accepted, made) = signed (login outside f.email f.password s) _ token s s h in
        let (there, same) = (login_iff outside f.email f.password s).0 accepted in
        (there, same, made),
    λ (there, same, made).
        rw ((login_iff outside f.email f.password s).1 (there, same)) (rw made refl),
  )
