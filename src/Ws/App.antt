-- ===== src/Ws/App.antt =====
-- server/ws/app.go: the hub of the connected clients. A `*Client` is a number, and the heap gives
-- what it points to; `Register` allocates. The sessions of the clients interleave: an event is a
-- connection that was upgraded, or what one client's `Receive` yields.
use abstruse.Prelude.{
  ℕ, suc, String, List, [], ◌∷◌, ◌++◌, Option, none, some, any, str_eq, ◌==◌, if◌then◌else◌,
}
use abstruse.Slice.{Slice, view, of_list, append, remove_all}
use abstruse.Ws.Client.{
  Client, UserClaims, new_client, handle_message, Incoming, failed, control, message,
}

pub record App : Type 0 where
  pub clients : Slice ℕ
  pub heap : ℕ → Client
  pub next : ℕ

abbrev pub update : (ℕ → Client) → ℕ → Client → ℕ → Client
update h p c q = if q == p then c else h q

unfoldable pub new_app : (ℕ → Client) → App
new_app heap = record { clients = of_list []; heap = heap; next = 0 }

unfoldable pub register : App → UserClaims → App
register a claims = record {
  clients = append a.clients a.next;
  heap = update a.heap a.next (new_client claims);
  next = suc a.next;
}

abbrev with_clients : App → Option (Slice ℕ) → Option App
with_clients a none = none
with_clients a (some clients) = some (record a { clients = clients })

-- `none` is a panic of the loop that removes while it ranges.
unfoldable pub remove : App → ℕ → Option App
remove a p = with_clients a (remove_all (λ q. q == p) a.clients)

-- `Broadcast`: whom the message is sent to, in order, once for each subscription that equals it.
unfoldable pub per_subscription : ℕ → String → List String → List ℕ → List ℕ
per_subscription p topic [] out = out
per_subscription p topic (s ∷ subs) out =
    per_subscription p topic subs (if str_eq s topic then out ++ p ∷ [] else out)

unfoldable pub collect : (ℕ → Client) → String → List ℕ → List ℕ → List ℕ
unfolding per_subscription
collect heap topic [] out = out
collect heap topic (p ∷ ps) out =
    collect heap topic ps (per_subscription p topic (view (heap p).subs) out)

unfoldable pub broadcast : App → String → List ℕ
unfolding collect
broadcast a topic = collect a.heap topic (view a.clients) []

-- `clientIndex`: the first place of the client; an error where it is not there
index_from : ℕ → ℕ → List ℕ → Option ℕ
index_from i p [] = none
index_from i p (q ∷ ps) = if q == p then some i else index_from (suc i) p ps

unfoldable pub client_index : App → ℕ → Option ℕ
unfolding index_from
client_index a p = index_from 0 p (view a.clients)

pub data Event : Type 0 where
  connected : UserClaims → Event
  received : ℕ → Incoming → Event

abbrev with_client : App → ℕ → Option Client → Option App
with_client a p none = none
with_client a p (some c) = some (record a { heap = update a.heap p c })

-- One round of `InitClient` for one client; an error ends it, and `handle` removes the client.
unfoldable pub receive : App → ℕ → Incoming → Option App
unfolding remove
receive a p failed = remove a p
receive a p control = some a
receive a p (message kind topic) = with_client a p (handle_message (a.heap p) kind topic)

-- Only a registered client has a reading loop.
unfoldable pub step : App → Event → Option App
unfolding register receive
step a (connected claims) = some (register a claims)
step a (received p m) = if any (λ q. q == p) (view a.clients) then receive a p m else some a

unfoldable pub run : App → List Event → Option App
run a [] = some a
run a (e ∷ es) = elim (step a e) [ none ↦ none | some a' ↦ run a' es ]
