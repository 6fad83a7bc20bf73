-- ===== src/Tests/Signing.antt =====
-- The theorems on tokens at concrete inputs. A token is its text; the decoder knows one.
use abstruse.Prelude.{◌≡◌, ◌↔◌, String, true, false, [], ◌∷◌, none, some, str_eq, join, Result, ok}
use abstruse.Auth.Claims.{text, MapClaims, UserClaims, parse_user_claims, create_map}
use abstruse.Auth.Request.{Token, Decoded}
use abstruse.Auth.Middleware.{passed, admit}
use abstruse.Auth.Middleware.Accepted.{token_of, Vouches, admit_iff}
use abstruse.Auth.Middleware.Roundtrip.{bearer}
use abstruse.Auth.Worker.{authenticate}
use abstruse.Auth.Worker.Credentials.{Names, authenticate_iff}

abbrev jan : UserClaims
jan = record { id = 1; login = "jan"; email = ""; name = "Jan"; avatar = ""; role = "admin" }

abbrev decode : String → Decoded
decode s =
    (some (record { method = "HS256"; valid = true; claims = some (create_map jan 9) }), none)

admit_iff_example : (admit "HS256" decode (bearer "t0ken") ≡ passed jan) ↔ (
    (str_eq (token_of (bearer "t0ken")) "" ≡ false)
    × ((claims : MapClaims) × Vouches "HS256" (decode (token_of (bearer "t0ken"))) claims
        × (parse_user_claims claims ≡ ok jan)))
admit_iff_example = admit_iff jan "HS256" decode (bearer "t0ken")

abbrev parse : String → Result Token
parse jwt =
    ok (record { method = "HS256"; valid = true; claims = some (("identifier", text "w1") ∷ []) })

authenticate_iff_example :
    (authenticate parse (some (record { identifier = "w1" ∷ []; jwt = "j" ∷ [] })) ≡ ok "w1")
    ↔ (("w1" ≡ join ("w1" ∷ []) "") × Names parse "j" "w1")
authenticate_iff_example =
    authenticate_iff parse (record { identifier = "w1" ∷ []; jwt = "j" ∷ [] }) "w1"
