-- ===== src/Auth/FromJwt.antt =====
-- UserClaimsFromJWT and WorkerClaimsFromJWT of internal/auth/jwt.go. jwt-go's Parse, with the secret and
-- the check for an HMAC, is a parameter.
use abstruse.Prelude.{
  String, Bool, Option, none, some, str_eq, if◌then◌else◌, Result, ok, err, panic,
}
use abstruse.Auth.Claims.{
  MapClaims, UserClaims, WorkerClaims, parse_user_claims, parse_worker_claims,
}
use abstruse.Auth.Request.{Token}

module _ {C : Type 0} (parse_claims : MapClaims → Result C) where
  -- `claims, ok := token.Claims.(jwt.MapClaims); ok && token.Valid`
  abbrev pub of_claims : Bool → Option MapClaims → Result C
  of_claims valid none = err "invalid token"
  of_claims valid (some claims) = if valid then parse_claims claims else err "invalid token"

  -- `if err != nil { return c, fmt.Errorf("invalid token") }`
  abbrev pub of_token : Result Token → Result C
  of_token (ok t) = of_claims t.valid t.claims
  of_token (err e) = err "invalid token"
  of_token panic = panic

unfoldable pub user_claims_from_jwt : (String → Result Token) → String → Result UserClaims
unfolding parse_user_claims
user_claims_from_jwt parse token =
    if str_eq token "" then err "invalid token" else of_token parse_user_claims (parse token)

unfoldable pub worker_claims_from_jwt : (String → Result Token) → String → Result WorkerClaims
unfolding parse_worker_claims
worker_claims_from_jwt parse token =
    if str_eq token "" then err "invalid token" else of_token parse_worker_claims (parse token)
