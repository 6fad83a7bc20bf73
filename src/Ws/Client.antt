-- ===== src/Ws/Client.antt =====
-- server/ws/client.go: a connection's subscriptions, and the claims that it was opened with
-- (internal/auth/claims.go). The connection itself is not modelled; what it yields is an `Incoming`.
pub mod Laws
use abstruse.Prelude.{ℕ, String, Bool, List, [], Option, none, some, any, str_eq, if◌then◌else◌}
pub use abstruse.Auth.Claims.{UserClaims}
use abstruse.Slice.{Slice, view, of_list, append, remove_all}

pub record Client : Type 0 where
  pub claims : UserClaims
  pub subs : Slice String

-- The client that `Register` makes: it is subscribed to nothing.
abbrev pub new_client : UserClaims → Client
new_client claims = record { claims = claims; subs = of_list [] }

unfoldable pub is_subscribed : Client → String → Bool
is_subscribed c topic = any (λ s. str_eq s topic) (view c.subs)

pub subscribe : Client → String → Client
unfolding is_subscribed
subscribe c topic = if is_subscribed c topic then c else record c { subs = append c.subs topic }

abbrev with_subs : Client → Option (Slice String) → Option Client
with_subs c none = none
with_subs c (some subs) = some (record c { subs = subs })

-- `none` is a panic of the loop that removes while it ranges.
pub unsubscribe : Client → String → Option Client
unsubscribe c topic = with_subs c (remove_all (λ s. str_eq s topic) c.subs)

-- What `Receive` yields: an error, a control frame (a nil message), or a message with its type and
-- the text under "sub" in its data, if there is one.
pub data Incoming : Type 0 where
  failed control : Incoming
  message : String → Option String → Incoming

-- `d, ok := msg.Data["sub"].(string)`, with "" where it is not ok
abbrev pub topic_of : Option String → String
topic_of none = ""
topic_of (some s) = s

-- The body of the loop of `InitClient`, for a message: the test for "subscribe", then the other.
subscribe_message : Client → String → Option String → Client
unfolding subscribe
subscribe_message c kind topic = if str_eq kind "subscribe" then subscribe c (topic_of topic) else c

unfoldable pub handle_message : Client → String → Option String → Option Client
unfolding subscribe_message unsubscribe
handle_message c kind topic =
    let c' = subscribe_message c kind topic in
    if str_eq kind "unsubscribe" then unsubscribe c' (topic_of topic) else some c'
