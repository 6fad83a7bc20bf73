-- ===== src/Auth/Middleware.antt =====
-- server/api/middlewares/auth.go: a request goes on with its claims, or is answered.
pub mod Accepted
pub mod Roundtrip
use abstruse.Prelude.{
  ℕ, String, Bool, not, List, [], Option, none, some, if◌then◌else◌, Result, ok, err, panic,
}
use abstruse.Auth.Claims.{
  MapClaims, UserClaims, WorkerClaims, parse_user_claims, parse_worker_claims,
}
use abstruse.Auth.Request.{Request, Token, Decoded, verifier, from_context}

-- The next handler with the claims, an answer with a status, or a panic.
pub data Passage (C : Type 0) : Type 0 where
  passed : C → Passage C
  refused : ℕ → String → Passage C
  panicked : Passage C

abbrev pub with_claims : {C : Type 0} → Result C → Passage C
with_claims (ok c) = passed c
with_claims (err e) = refused 401 "invalid access token"
with_claims panic = panicked

abbrev or_no_claims : Option MapClaims → MapClaims
or_no_claims none = []
or_no_claims (some claims) = claims

-- The body of both middlewares; `token.Valid` of a nil token panics.
unfoldable pub authenticate :
    {C : Type 0}
    → (MapClaims → Result C)
    → Option Token × Option MapClaims × Option String
    → Passage C
authenticate parse (t, claims, some e) = refused 401 e
authenticate parse (none, claims, none) = panicked
authenticate parse (some t, claims, none) =
    if not t.valid then refused 401 "token expired" else with_claims (parse (or_no_claims claims))

unfoldable pub authenticator : Option Token × Option String → Passage UserClaims
unfolding authenticate from_context parse_user_claims
authenticator ctx = authenticate parse_user_claims (from_context ctx)

unfoldable pub worker_authenticator : Option Token × Option String → Passage WorkerClaims
unfolding authenticate from_context parse_worker_claims
worker_authenticator ctx = authenticate parse_worker_claims (from_context ctx)

-- A request through `Verifier` and then `Authenticator`.
unfoldable pub admit : String → (String → Decoded) → Request → Passage UserClaims
unfolding verifier authenticator
admit signer decode r = authenticator (verifier signer decode r)

-- `SetupAuthenticator`: the set-up is open until there is an administrator.
unfoldable pub setup_open : Bool → Passage (Unit {0})
setup_open admin_exists =
    if not admin_exists then passed tt else refused 403 "user with role admin already exists"
