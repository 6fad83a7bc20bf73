-- ===== src/Auth/Claims.antt =====
-- internal/auth/claims.go: the claims of a token, as jwt-go decodes them into a map, and the two structs
-- that are read from it. A type assertion on a value of another type panics. Numbers are not negative.
pub mod Parsed
use abstruse.Prelude.{
  ℕ, ◌+◌, ◌*◌, String, List, [], ◌∷◌, ◌++◌, Option, none, some, str_eq, if◌then◌else◌, Result, ok,
  err, panic, cat,
}

pub data Claim : Type 0 where
  text : String → Claim
  number : ℕ → Claim
  other : Claim

-- jwt.MapClaims
abbrev pub MapClaims : Type 0
MapClaims = List (String × Claim)

unfoldable pub claim_at : MapClaims → String → Option Claim
claim_at [] key = none
claim_at ((k, v) ∷ rest) key =
    let later = claim_at rest key in if str_eq k key then some v else later

-- The claims of a user without the standard ones, which ParseClaims does not read.
pub record UserClaims : Type 0 where
  pub id : ℕ
  pub login : String
  pub email : String
  pub name : String
  pub avatar : String
  pub role : String

pub record WorkerClaims : Type 0 where
  pub id : String
  pub addr : String

-- `x, ok := claims[key]; if !ok { return … }; x.(string)`
abbrev pub as_text : String → Option Claim → Result String
as_text key none = err (cat "could not parse " (cat key " claim"))
as_text key (some (text s)) = ok s
as_text key (some (number n)) = panic
as_text key (some other) = panic

abbrev pub as_number : String → Option Claim → Result ℕ
as_number key none = err (cat "could not parse " (cat key " claim"))
as_number key (some (text s)) = panic
as_number key (some (number n)) = ok n
as_number key (some other) = panic

abbrev pub then_claim : {A B : Type 0} → Result A → (A → Result B) → Result B
then_claim (ok a) f = f a
then_claim (err e) f = err e
then_claim panic f = panic

unfoldable pub text_claim : MapClaims → String → Result String
unfolding claim_at
text_claim claims key = as_text key (claim_at claims key)

unfoldable pub number_claim : MapClaims → String → Result ℕ
unfolding claim_at
number_claim claims key = as_number key (claim_at claims key)

unfoldable pub parse_user_claims : MapClaims → Result UserClaims
unfolding text_claim number_claim
parse_user_claims claims = then_claim (number_claim claims "id") (λ id.
    then_claim (text_claim claims "login") (λ login.
      then_claim (text_claim claims "email") (λ email.
        then_claim (text_claim claims "name") (λ name.
          then_claim (text_claim claims "avatar") (λ avatar.
            then_claim (text_claim claims "role") (λ role. ok (record {
              id = id;
              login = login;
              email = email;
              name = name;
              avatar = avatar;
              role = role;
            })))))))

unfoldable pub parse_worker_claims : MapClaims → Result WorkerClaims
unfolding text_claim
parse_worker_claims claims =
    then_claim (text_claim claims "id")
      (λ id. then_claim (text_claim claims "addr") (λ addr. ok (record { id = id; addr = addr })))

-- The map that a token of these claims decodes to: the struct's fields by their names in JSON.
unfoldable pub user_map : UserClaims → MapClaims
user_map c =
    ("id", number c.id)
    ∷ ("login", text c.login)
    ∷ ("email", text c.email)
    ∷ ("name", text c.name)
    ∷ ("avatar", text c.avatar)
    ∷ ("role", text c.role)
    ∷ []

-- `CreateJWT` adds the standard claims, at a time in seconds.
unfoldable pub create_map : UserClaims → ℕ → MapClaims
unfolding user_map
create_map c now =
    user_map c
    ++ (("exp", number (now + 60 * 60 * 24 * 365))
        ∷ ("iat", number now)
        ∷ ("iss", text "Abstruse CI")
        ∷ [])
