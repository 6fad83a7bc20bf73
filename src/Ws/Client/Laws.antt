-- ===== src/Ws/Client/Laws.antt =====
-- A client's subscriptions stay distinct, so `unsubscribe` never reads past its slice.
use abstruse.Prelude.{
  String, ◌≡◌, refl, not, [], ◌∷◌, ◌++◌, Option, some, arith, keep, str_eq, eq_iff, Bool-cases, inl,
  inr, if◌then◌else◌,
}
use abstruse.Slice.{view}
use abstruse.Slice.Distinct.{IsSound, view-append, append-IsSound, remove_all-IsSound}
use abstruse.Ws.Client.{
  Client, UserClaims, new_client, is_subscribed, subscribe, subscribe_message, unsubscribe,
  topic_of, handle_message,
}

abbrev pub IsTidy : Client → Type 0
IsTidy c = IsSound str_eq c.subs

pub new_client-IsTidy : (claims : UserClaims) → IsTidy (new_client claims)
new_client-IsTidy claims = record { fits = omega arith; distinct = λ a. omega arith }

pub subscribe-IsTidy : (c : Client) (topic : String) → IsTidy c → IsTidy (subscribe c topic)
unfolding subscribe is_subscribed
subscribe-IsTidy c topic h = elim (Bool-cases (is_subscribed c topic)) [
  | inl old ↦ rw (old, subscribe) h
  | inr new ↦ rw (new, subscribe) (append-IsSound str_eq (λ a b. (eq_iff a b).0) c.subs topic h new)
]

-- `subscribe` adds the topic at the end, or nothing where the client has it.
view-subscribe :
    (c : Client) (topic : String)
    → IsTidy c
    → view (subscribe c topic).subs
      ≡ (if is_subscribed c topic then view c.subs else view c.subs ++ topic ∷ [])
unfolding subscribe is_subscribed
view-subscribe c topic h = elim (Bool-cases (is_subscribed c topic)) [
  | inl old ↦ rw (old, subscribe)
  | inr new ↦ rw (new, subscribe) (view-append c.subs topic h.fits)
]

-- Where the subscriptions are distinct, unsubscribing does not panic, takes just that topic
-- away, touches nothing else of the client and leaves them distinct.
unsubscribe_total :
    (c : Client) (topic : String)
    → IsTidy c
    → (c' : Client) × (unsubscribe c topic ≡ some c')
      × (view c'.subs ≡ keep (λ s. not (str_eq s topic)) (view c.subs))
      × (c'.claims ≡ c.claims)
      × IsTidy c'
unfolding unsubscribe
unsubscribe_total c topic h =
    let (s, done, seen, tidy) = remove_all-IsSound str_eq (λ a b. (eq_iff a b).0) c.subs topic h in
    (record c { subs = s }, rw done refl, seen, refl, tidy)

subscribe_message-IsTidy :
    (c : Client) (kind : String) (topic : Option String)
    → IsTidy c
    → IsTidy (subscribe_message c kind topic)
unfolding subscribe_message
subscribe_message-IsTidy c kind topic h = elim (Bool-cases (str_eq kind "subscribe")) [
  | inl e ↦ rw e (subscribe-IsTidy c (topic_of topic) h)
  | inr e ↦ rw e h
]

-- Where the subscriptions are distinct, no message makes the loop of a client panic, and each leaves
-- them distinct.
pub handle_message_total :
    (c : Client) (kind : String) (topic : Option String)
    → IsTidy c
    → (c' : Client) × (handle_message c kind topic ≡ some c') × IsTidy c'
unfolding handle_message
handle_message_total c kind topic h =
    let tidy = subscribe_message-IsTidy c kind topic h in
    elim (Bool-cases (str_eq kind "unsubscribe")) [
      | inl e ↦
          let (c', done, _, _, tidy') =
            unsubscribe_total (subscribe_message c kind topic) (topic_of topic) tidy in
          (c', rw e done, tidy')
      | inr e ↦ (subscribe_message c kind topic, rw e refl, tidy)
    ]
