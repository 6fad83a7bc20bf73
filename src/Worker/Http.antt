-- ===== src/Worker/Http.antt =====
-- worker/http/client.go and worker/http/bearer.go: requests to the server with the worker's token.
-- net/url and net/http are parameters.
use abstruse.Prelude.{
  ℕ, String, Bool, not, List, [], ◌∷◌, ◌++◌, any, cat, str_eq, Option, none, some, Result, ok, err,
  Effect, pure, lift, ◌>>=◌, if◌then◌else◌,
}
use abstruse.Store.Hooks.{ends_with}

-- A parsed address: its path and the rest of it.
pub record Url : Type 0 where
  pub rest : String
  pub path : String

pub record Response : Type 0 where
  pub status : ℕ
  pub body : String

-- What goes to the transport.
pub record HttpRequest : Type 0 where
  pub method : String
  pub url : String
  pub headers : List (String × String)
  pub body : String

-- `text` is url.String, `clean` is path.Clean, `new_request` is NewRequest's error for a method and an
-- address, `transport` is the base transport.
pub record Net (S : Type 0) : Type 0 where
  pub parse : String → Result Url
  pub text : Url → String
  pub clean : String → String
  pub new_request : String → String → Option String
  pub transport : HttpRequest → Effect S Response

pub record Client : Type 0 where
  pub base : Url
  pub token : String

pub record Request : Type 0 where
  pub method : String
  pub path : String
  pub headers : List (String × String)
  pub body : String

unfoldable pub with_slash : Url → Url
unfolding ends_with
with_slash u = if not (ends_with u.path "/") then record u { path = cat u.path "/" } else u

abbrev pub is_authorization : String × String → Bool
is_authorization h = str_eq h.0 "Authorization"

-- RoundTrip
unfoldable pub authorized : String → List (String × String) → List (String × String)
authorized token headers =
    if any is_authorization headers
    then headers
    else headers ++ ("Authorization", cat "Bearer " token) ∷ []

module _ {S : Type 0} (net : Net S) where
  unfoldable pub new_client : String → String → Effect S Client
  unfolding with_slash
  new_client uri token =
      lift (net.parse uri) >>= λ base. pure (record { base = with_slash base; token = token })

  abbrev no_error : Option String → Result (Unit {0})
  no_error none = ok tt
  no_error (some e) = err e

  unfoldable pub req : Client → Request → Effect S Response
  unfolding authorized
  req c r = do
    u ← lift (net.parse (cat (net.text c.base) r.path))
    let url = net.text (record u { path = net.clean u.path })
    lift (no_error (net.new_request r.method url)) >>= λ _. net.transport (record {
      method = r.method;
      url = url;
      headers = authorized c.token r.headers;
      body = r.body;
    })
