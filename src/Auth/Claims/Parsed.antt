-- ===== src/Auth/Claims/Parsed.antt =====
-- What `ParseClaims` of internal/auth/claims.go makes of the claims, and of a token for the other kind of
-- caller.
use abstruse.Prelude.{String, ◌≡◌, refl, some, ok, panic}
use abstruse.Auth.Claims.{
  text, MapClaims, claim_at, UserClaims, text_claim, number_claim, parse_user_claims, user_map,
}

-- The claims written for a user are read back as they were.
parse_user_claims-user_map : (c : UserClaims) → parse_user_claims (user_map c) ≡ ok c
unfolding parse_user_claims text_claim number_claim claim_at user_map
parse_user_claims-user_map c = refl

-- The middleware for users panics on a token whose id is a text, as a worker's is.
parse_user_claims_worker :
    (claims : MapClaims) (id : String)
    → claim_at claims "id" ≡ some (text id)
    → parse_user_claims claims ≡ panic
unfolding parse_user_claims number_claim
parse_user_claims_worker claims id h = rw h refl
