-- ===== src/Auth/Middleware/Accepted.antt =====
-- Which requests `Authenticator` of server/api/middlewares/auth.go passes on, and with which claims.
use abstruse.Prelude.{
  String, ◌≡◌, ◌↔◌, refl, ap, ◌∙◌, Bool, true, false, not, [], ◌∷◌, Option, none, some, str_eq,
  if◌then◌else◌, Result, ok, err, panic,
}
use abstruse.Auth.Claims.{MapClaims, UserClaims, parse_user_claims}
use abstruse.Auth.Request.{
  Request, Token, validation, other_error, Decoded, token_from_query, token_from_header,
  token_from_cookie, find_token, checked_token, verify_request, verifier, from_token,
}
use abstruse.Auth.Middleware.{passed, refused, with_claims, authenticate, authenticator, admit}

-- The text of the request's token: of the query, else of the header, else of the cookie.
abbrev pub token_of : Request → String
token_of r = find_token (token_from_query ∷ token_from_header ∷ token_from_cookie ∷ []) r

-- jwt-go decodes the token without an error, to a valid one of the server's signing method whose claims
-- are these.
abbrev pub Vouches : String → Decoded → MapClaims → Type 0
Vouches signer d claims =
    (t : Token) × (d ≡ (some t, none))
    × (t.valid ≡ true)
    × (str_eq t.method signer ≡ true)
    × (t.claims ≡ some claims)

passed-injective : {C : Type 0} {c d : C} → passed c ≡ passed d → c ≡ d
passed-injective e = cc

module _ (c : UserClaims) where
  let_in :
      (v : Bool) (r : Result UserClaims)
      → (if not v then refused 401 "token expired" else with_claims r) ≡ passed c
      → (v ≡ true) × (r ≡ ok c)
  let_in false r h = absurd (cc)
  let_in true (ok d) h = (refl, ap ok (passed-injective h))
  let_in true (err e) h = absurd (cc)
  let_in true panic h = absurd (cc)

  with_error :
      (t : Token) (e : String) (o : Option MapClaims)
      → authenticate parse_user_claims (from_token t (some e) o) ≡ passed c
      → ⊥
  unfolding authenticate
  with_error t e none h = cc
  with_error t e (some claims) h = cc

  without_error :
      (t : Token) (o : Option MapClaims)
      → authenticate parse_user_claims (from_token t none o) ≡ passed c
      → (claims : MapClaims) × (o ≡ some claims) × (parse_user_claims claims ≡ ok c)
  unfolding authenticate
  without_error t none h = absurd (cc)
  without_error t (some claims) h = (claims, refl, (let_in t.valid (parse_user_claims claims) h).1)

  kept_tests :
      (t : Token) (v m : Bool) (x y : String)
      → authenticator
          (if not v then (some t, some x) else if not m then (some t, some y) else (some t, none))
        ≡ passed c
      → (v ≡ true) × (m ≡ true) × (authenticator (some t, none) ≡ passed c)
  unfolding authenticator
  kept_tests t false m x y h = absurd (with_error t x t.claims h)
  kept_tests t true false x y h = absurd (with_error t y t.claims h)
  kept_tests t true true x y h = (refl, refl, h)

  checked_token_passed :
      (signer : String) (decode : String → Decoded) (d : Decoded)
      → authenticator (checked_token signer decode d) ≡ passed c
      → (claims : MapClaims) × Vouches signer d claims × (parse_user_claims claims ≡ ok c)
  unfolding authenticator
  checked_token_passed signer decode (none, some (validation a b i text)) h = absurd (cc)
  checked_token_passed signer decode (none, some (other_error text)) h = absurd (cc)
  checked_token_passed signer decode (some t, some (validation a b i text)) h =
      absurd (with_error t _ t.claims h)
  checked_token_passed signer decode (some t, some (other_error text)) h =
      absurd (with_error t _ t.claims h)
  checked_token_passed signer decode (none, none) h = absurd (cc)
  checked_token_passed signer decode (some t, none) h =
      let (v, m, h') = kept_tests t t.valid (str_eq t.method signer) _ _ h in
      let (claims, has, parsed) = without_error t t.claims h' in
      (claims, (t, refl, v, m, has), parsed)

  vouched_passed :
      (signer : String) (decode : String → Decoded) (d : Decoded) (claims : MapClaims)
      → Vouches signer d claims
      → parse_user_claims claims ≡ ok c
      → authenticator (checked_token signer decode d) ≡ passed c
  unfolding authenticator
  vouched_passed signer decode d claims (t, e, v, m, has) parsed =
      ap (λ d. authenticator (checked_token signer decode d)) e ∙ rw (v, m, has, parsed) refl

  found_token :
      (signer : String) (decode : String → Decoded) (token : String) (b : Bool)
      → authenticator
          (if b then (none, some "token not found") else checked_token signer decode (decode token))
        ≡ passed c
      → (b ≡ false)
        × ((claims : MapClaims) × Vouches signer (decode token) claims
            × (parse_user_claims claims ≡ ok c))
  unfolding authenticator
  found_token signer decode token true h = absurd (cc)
  found_token signer decode token false h = (refl, checked_token_passed signer decode _ h)

  -- A request reaches the next handler with the claims `c` exactly if a token is found in its query, else
  -- in its header, else in its cookie, jwt-go decodes it without an error to a valid token of the server's
  -- signing method, and its claims parse to `c`.
  pub admit_iff :
      (signer : String) (decode : String → Decoded) (r : Request)
      → (admit signer decode r ≡ passed c) ↔ (
          (str_eq (token_of r) "" ≡ false)
          × ((claims : MapClaims) × Vouches signer (decode (token_of r)) claims
              × (parse_user_claims claims ≡ ok c)))
  unfolding admit verifier verify_request
  admit_iff signer decode r = (
    λ h. found_token signer decode (token_of r) (str_eq (token_of r) "") h,
    λ (has, (claims, vouches, parsed)).
        rw has (vouched_passed signer decode _ claims vouches parsed),
  )
