-- ===== src/Auth/Request.antt =====
-- internal/auth/jwt.go: where a request's token is looked for, and what is checked_token of it. jwt-go is a
-- parameter: what its parser makes of a token, and its error.
use Prim.Native.Char.{code}
use Prim.Native.String.{len, slice}
use abstruse.Prelude.{
  ℕ, ◌+◌, String, Char, Bool, true, false, not, List, [], ◌∷◌, ◌&&◌, ◌||◌, Option, none, some,
  str_eq, ltb, ◌==◌, if◌then◌else◌,
}
use abstruse.Auth.Claims.{MapClaims, UserClaims, create_map}

-- The cookie, the header and the query of a request; an absent header or query value is empty.
pub record Request : Type 0 where
  pub query : String
  pub authorization : String
  pub cookie : Option String

-- jwt.Token: its method, whether it is valid, and its claims where they are a map.
pub record Token : Type 0 where
  pub method : String
  pub valid : Bool
  pub claims : Option MapClaims

-- The bits of jwt.ValidationError that are asked for, and its text.
pub data DecodeError : Type 0 where
  validation : Bool → Bool → Bool → String → DecodeError
  other_error : String → DecodeError

-- What `decode` gives: a nil token is `none`.
abbrev pub Decoded : Type 0
Decoded = Option Token × Option DecodeError

abbrev same_letter : Char → Char → Bool
same_letter c d = code c == code d || code c + 32 == code d

-- strings.ToLower(s) == t, where t is in small letters of ASCII none of which is the small letter of
-- another character than its capital.
unfoldable pub equals_lower : String → String → Bool
equals_lower String.[] String.[] = true
equals_lower String.[] (String.◌∷◌ d t) = false
equals_lower (String.◌∷◌ c s) String.[] = false
equals_lower (String.◌∷◌ c s) (String.◌∷◌ d t) = same_letter c d && equals_lower s t

unfoldable pub token_from_query : Request → String
token_from_query r = r.query

unfoldable pub token_from_header : Request → String
unfolding equals_lower
token_from_header r =
    let bearer = r.authorization in
    if ltb 7 (len bearer) && equals_lower (slice bearer 0 6) "bearer"
    then slice bearer 7 (len bearer)
    else ""

abbrev cookie_value : Option String → String
cookie_value none = ""
cookie_value (some s) = s

unfoldable pub token_from_cookie : Request → String
token_from_cookie r = cookie_value r.cookie

-- The loop over the functions that find a token.
unfoldable pub find_token : List (Request → String) → Request → String
find_token [] r = ""
find_token (f ∷ fs) r = let rest = find_token fs r in if not (str_eq (f r) "") then f r else rest

unfoldable pub validation_text : Bool → Bool → Bool → String → String
validation_text expired issued_at not_valid_yet text =
    if expired
    then "token is expired"
    else if issued_at
    then "token iat validation failed"
    else if not_valid_yet
    then "token nbf validation failed"
    else text

module _ (signer : String) (decode : String → Decoded) where
  abbrev pub checked_token : Decoded → Option Token × Option String
  checked_token (t, some (validation expired issued_at not_valid_yet text)) =
      (t, some (validation_text expired issued_at not_valid_yet text))
  checked_token (t, some (other_error text)) = (t, some text)
  checked_token (none, none) = (none, some "token is unathorized")
  checked_token (some t, none) =
      if not t.valid
      then (some t, some "token is unathorized")
      else if not (str_eq t.method signer)
      then (some t, some "token signing method is invalid")
      else (some t, none)

  unfoldable pub verify_request : List (Request → String) → Request → Option Token × Option String
  unfolding find_token validation_text
  verify_request fns r =
      let token = find_token fns r in
      if str_eq token "" then (none, some "token not found") else checked_token (decode token)

  -- `Verifier` and `verify`: the token and the error that go into the request's context.
  unfoldable pub verifier : Request → Option Token × Option String
  unfolding verify_request token_from_query token_from_header token_from_cookie
  verifier r = verify_request (token_from_query ∷ token_from_header ∷ token_from_cookie ∷ []) r

-- `FromContext`: a token whose claims are no map is an error; without a token the claims are empty.
abbrev pub from_token :
    Token → Option String → Option MapClaims → Option Token × Option MapClaims × Option String
from_token t e none = (some t, none, some "unknown type of claims")
from_token t e (some claims) = (some t, some claims, e)

unfoldable pub from_context :
    Option Token × Option String → Option Token × Option MapClaims × Option String
from_context (none, e) = (none, some [], e)
from_context (some t, e) = from_token t e t.claims

-- `CreateJWT`; `sign` is jwt-go's SignedString with the server's secret.
unfoldable pub create_jwt : (MapClaims → String) → UserClaims → ℕ → String
unfolding create_map
create_jwt sign c now = sign (create_map c now)
