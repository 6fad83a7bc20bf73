-- ===== src/Api/Accounts/Entered.antt =====
-- A login through server/api/user/login.go and the requests that follow it.
use Prim.Native.String.{len}
use abstruse.Prelude.{ok_inj, ℕ, ◌<◌, ◌≡◌, subst, String, ok}
use abstruse.Store.Users.{Outside}
use abstruse.Auth.Claims.{MapClaims, create_map}
use abstruse.Auth.Request.{Decoded, create_jwt}
use abstruse.Auth.Middleware.{passed, admit}
use abstruse.Auth.Middleware.Accepted.{Vouches}
use abstruse.Auth.Middleware.Roundtrip.{bearer, admit-create_jwt}
use abstruse.Api.Answer.{success}
use abstruse.Api.Accounts.{LoginForm, claims_of, handle_login}
use abstruse.Api.Accounts.Tokens.{handle_login_iff}

-- A user who sends the token that a login was answered with in the header is let in as the user who was
-- found under the email or login of the form, where the token is not empty and jwt-go decodes it to the
-- claims that were signed.
pub handle_login-admits :
    {S : Type 0} (outside : Outside S) (sign : MapClaims → String) (signer : String)
    (decode : String → Decoded) (now : ℕ) (f : LoginForm) (s : S) (token : String)
    → let c = claims_of (outside.by_name f.email s).0 in
      handle_login outside (λ c. ok (create_jwt sign c now)) (ok f) s ≡ (success token, s)
      → 0 < len token
      → Vouches signer (decode token) (create_map c now)
      → admit signer decode (bearer token) ≡ passed c
handle_login-admits outside sign signer decode now f s token h long vouches =
    let c = claims_of (outside.by_name f.email s).0 in
    let (there, same, made) = (handle_login_iff outside _ f s token).0 h in
    subst
      (λ token.
        0 < len token
        → Vouches signer (decode token) (create_map c now)
        → admit signer decode (bearer token) ≡ passed c)
      (ok_inj made) (admit-create_jwt signer sign decode c now) long vouches
