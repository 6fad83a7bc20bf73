-- ===== src/Auth/Worker.antt =====
-- internal/auth/worker.go and `authenticate` of worker/app/interceptor.go: a worker's server lets in calls
-- whose token names the identifier that they come with. jwt-go's Parse, with the secret and the check
-- for an HMAC, is a parameter.
pub mod Credentials
use abstruse.Prelude.{
  String, Bool, List, [], ◌∷◌, ◌&&◌, Option, none, some, join, str_eq, if◌then◌else◌, Result, ok,
  err, panic,
}
use abstruse.Auth.Claims.{MapClaims, Claim, text, number, other, claim_at, then_claim}
use abstruse.Auth.Request.{Token}

-- The metadata of a call: the values of the keys identifier and jwt.
pub record Metadata : Type 0 where
  pub identifier : List String
  pub jwt : List String

-- `claims["identifier"].(string)`
abbrev pub asserted : Option Claim → Result String
asserted (some (text s)) = ok s
asserted (some (number n)) = panic
asserted (some other) = panic
asserted none = panic

abbrev pub identified : Token → Option MapClaims → Result String
identified t none = ok ""
identified t (some claims) = if t.valid then asserted (claim_at claims "identifier") else ok ""

module _ (parse : String → Result Token) where
  unfoldable pub worker_identifier : String → Result String
  unfolding claim_at
  worker_identifier token =
      if str_eq token ""
      then err "invalid token"
      else then_claim (parse token) (λ t. identified t t.claims)

  abbrev pub compared : String → Result String → Result String
  compared identifier (ok calc_id) =
      if str_eq calc_id identifier then ok identifier else err "invalid credentials"
  compared identifier (err e) = err "invalid credentials"
  compared identifier panic = panic

  unfoldable pub authenticate : Option Metadata → Result String
  unfolding worker_identifier
  authenticate none = err "missing credentials"
  authenticate (some md) = compared (join md.identifier "") (worker_identifier (join md.jwt ""))
