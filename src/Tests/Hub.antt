-- ===== src/Tests/Hub.antt =====
-- The theorems on the hub of the websockets at concrete sessions.
use abstruse.Prelude.{ℕ, ◌≡◌, List, [], ◌∷◌, some}
use abstruse.Ws.Client.{Client, UserClaims, new_client, subscribe, failed, message}
use abstruse.Ws.Client.Laws.{IsTidy, new_client-IsTidy, subscribe-IsTidy}
use abstruse.Ws.App.{App, new_app, register, Event, connected, received, run}
use abstruse.Ws.Sessions.{IsHub, new_app-IsHub, register-IsHub, run_total}

abbrev claims : UserClaims
claims = record { id = 1; login = "jan"; email = ""; name = "Jan"; avatar = ""; role = "admin" }

abbrev fresh : ℕ → Client
fresh p = new_client claims

abbrev hub : App
hub = register (register (new_app fresh) claims) claims

hub-IsHub : IsHub hub
hub-IsHub =
    register-IsHub (register (new_app fresh) claims) claims
      (register-IsHub (new_app fresh) claims (new_app-IsHub fresh (λ p. new_client-IsTidy claims)))

abbrev client : Client
client = subscribe (subscribe (new_client claims) "/subs/jobs/1") "/subs/builds"

client-IsTidy : IsTidy client
client-IsTidy =
    subscribe-IsTidy (subscribe (new_client claims) "/subs/jobs/1") "/subs/builds"
      (subscribe-IsTidy (new_client claims) "/subs/jobs/1" (new_client-IsTidy claims))

abbrev events : List Event
events =
    connected claims
    ∷ received 0 (message "subscribe" (some "/subs/builds"))
    ∷ received 1 (message "subscribe" (some "/subs/builds"))
    ∷ received 1 (message "unsubscribe" (some "/subs/builds"))
    ∷ received 0 failed
    ∷ []

run_total_example : (a' : App) × (run hub events ≡ some a') × IsHub a'
run_total_example = run_total hub events hub-IsHub
