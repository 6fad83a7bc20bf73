-- ===== src/Auth/Middleware/Roundtrip.antt =====
-- `CreateJWT` of internal/auth/jwt.go and back: a user with a new token in the header is let in as that
-- user.
use Prim.Native.String.{len, slice}
use package.text.Mathlib.TextLemmas.{append_assoc as text_assoc}
use package.text.Mathlib.TextPositions.{len-append, slice-append_left, slice-append_right}
use abstruse.Prelude.{
  String, ℕ, ◌<◌, ◌≡◌, refl, sym, ap, subst, ◌∙◌, arith, false, none, ok, cat, str_eq, eq_iff,
  lt→ltb, Bool-cases, inl, inr,
}
use abstruse.Auth.Claims.{
  text, MapClaims, UserClaims, parse_user_claims, user_map, text_claim, number_claim, claim_at,
  create_map,
}
use abstruse.Auth.Request.{
  Request, Decoded, token_from_query, token_from_header, find_token, create_jwt,
}
use abstruse.Auth.Middleware.{passed, admit}
use abstruse.Auth.Middleware.Accepted.{token_of, Vouches, admit_iff}

-- A request that carries the token in its header only.
abbrev pub bearer : String → Request
bearer token = record { query = ""; authorization = cat "Bearer " token; cookie = none }

token_from_header-bearer :
    (token : String) → 0 < len token → token_from_header (bearer token) ≡ token
unfolding token_from_header
token_from_header-bearer token h =
    let long : 7 < len (cat "Bearer " token) =
      subst (λ n. 7 < n) (sym (len-append "Bearer " token)) (omega (arith, h)) in
    let word : slice (cat "Bearer " token) 0 6 ≡ "Bearer" =
      ap (λ s. slice s 0 6) (text_assoc "Bearer" " " token)
      ∙ slice-append_left "Bearer" (cat " " token) in
    rw (lt→ltb _ _ long, word, len-append) (slice-append_right "Bearer " token)

not_empty : (token : String) → 0 < len token → str_eq token "" ≡ false
not_empty token h = elim (Bool-cases (str_eq token "")) [
  | inl e ↦
      let none_left : len token ≡ 0 = ap len ((eq_iff token "").0 e) in
      absurd (omega (arith, h, none_left))
  | inr e ↦ e
]

token_of-bearer : (token : String) → 0 < len token → token_of (bearer token) ≡ token
unfolding find_token token_from_query
token_of-bearer token h =
    let here = token_from_header-bearer token h in
    let found : str_eq (token_from_header (bearer token)) "" ≡ false =
      ap (λ s. str_eq s "") here ∙ not_empty token h in
    rw found here

parse_user_claims-create_map :
    (c : UserClaims) (now : ℕ) → parse_user_claims (create_map c now) ≡ ok c
unfolding parse_user_claims text_claim number_claim claim_at create_map user_map
parse_user_claims-create_map c now = refl

-- A user who sends the token that the server made for them in the header is let in with the claims that it
-- was made from, where jwt-go decodes that token to the claims that were signed.
pub admit-create_jwt :
    (signer : String) (sign : MapClaims → String) (decode : String → Decoded) (c : UserClaims)
    (now : ℕ)
    → 0 < len (create_jwt sign c now)
    → Vouches signer (decode (create_jwt sign c now)) (create_map c now)
    → admit signer decode (bearer (create_jwt sign c now)) ≡ passed c
admit-create_jwt signer sign decode c now h vouches =
    let token = create_jwt sign c now in
    let same = token_of-bearer token h in
    (admit_iff c signer decode (bearer token)).1 (
      ap (λ s. str_eq s "") same ∙ not_empty token h,
      (
        create_map c now,
        subst (λ s. Vouches signer (decode s) (create_map c now)) (sym same) vouches,
        parse_user_claims-create_map c now,
      ),
    )
