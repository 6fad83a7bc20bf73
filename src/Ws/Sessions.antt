-- ===== src/Ws/Sessions.antt =====
-- The sessions of many clients, interleaved, over the hub of server/ws/app.go.
use abstruse.Prelude.{
  ℕ, suc, ◌<◌, ◌≤◌, String, ◌≡◌, refl, sym, ◌∙◌, Bool, true, false, not, List, [], ◌∷◌, ◌++◌, some,
  arith, any, keep, count, All, All-append, str_eq, ◌==◌, ==_iff, Bool-cases, inl, inr,
  if◌then◌else◌, append-nil, append_assoc,
}
use abstruse.Slice.{view}
use abstruse.Slice.Distinct.{IsSound, view-append, append-IsSound, remove_all-IsSound}
use abstruse.Ws.Client.{Client, UserClaims, is_subscribed, Incoming, failed, control, message}
use abstruse.Ws.Client.Laws.{IsTidy, new_client-IsTidy, handle_message_total}
use abstruse.Ws.App.{
  App, update, new_app, register, remove, per_subscription, collect, broadcast, Event, connected,
  received, receive, step, run,
}

abbrev pub Below : ℕ → List ℕ → Type 0
Below n = All (λ p. p < n)

-- A sound hub: distinct clients that were allocated, each with distinct subscriptions.
pub record IsHub (a : App) : Type 0 where
  pub sound : IsSound ◌==◌ a.clients
  pub below : Below a.next (view a.clients)
  pub tidy : (p : ℕ) → IsTidy (a.heap p)

any-Below : (n p : ℕ) (ps : List ℕ) → Below n ps → n ≤ p → any (λ q. q == p) ps ≡ false
any-Below n p [] h k = refl
any-Below n p (q ∷ ps) h k = ground (arith, any-Below n p ps h.1)

Below-suc : (n : ℕ) (ps : List ℕ) → Below n ps → Below (suc n) ps
Below-suc n [] h = tt
Below-suc n (p ∷ ps) h = (omega arith, Below-suc n ps h.1)

Below-keep : (n : ℕ) (f : ℕ → Bool) (ps : List ℕ) → Below n ps → Below n (keep f ps)
Below-keep n f [] h = tt
Below-keep n f (p ∷ ps) h = ground (arith, Below-keep n f ps h.1)

eq_sound : (a b : ℕ) → (a == b) ≡ true → a ≡ b
eq_sound a b = (==_iff a b).0

pub register-IsHub : (a : App) (claims : UserClaims) → IsHub a → IsHub (register a claims)
unfolding register
register-IsHub a claims h = record {
  sound =
      append-IsSound ◌==◌ eq_sound a.clients a.next h.sound
        (any-Below a.next a.next (view a.clients) h.below (omega arith));
  below = rw (view-append a.clients a.next h.sound.fits) (
      All-append (λ p. p < suc a.next) (view a.clients) (a.next ∷ [])
        (Below-suc a.next (view a.clients) h.below) (omega arith, tt));
  tidy = λ p. elim (Bool-cases (p == a.next)) [
    | inl e ↦ rw e (new_client-IsTidy claims)
    | inr e ↦ rw e (h.tidy p)
  ];
}

-- In a sound hub, removing a client does not panic: just that client leaves, the others keep their
-- order, no client is changed and the hub is sound.
remove_total :
    (a : App) (p : ℕ)
    → IsHub a
    → (a' : App) × (remove a p ≡ some a')
      × (view a'.clients ≡ keep (λ q. not (q == p)) (view a.clients))
      × (a'.heap ≡ a.heap)
      × IsHub a'
unfolding remove
remove_total a p h =
    let (s, done, seen, ok) = remove_all-IsSound ◌==◌ eq_sound a.clients p h.sound in
    (
      record a { clients = s },
      rw done refl,
      seen,
      refl,
      record {
        sound = ok;
        below = rw seen (Below-keep a.next _ (view a.clients) h.below);
        tidy = h.tidy;
      },
    )

receive_total :
    (a : App) (p : ℕ) (m : Incoming) → IsHub a → (a' : App) × (receive a p m ≡ some a') × IsHub a'
unfolding receive
receive_total a p failed h = let (a', done, _, _, ok) = remove_total a p h in (a', done, ok)
receive_total a p control h = (a, refl, h)
receive_total a p (message kind topic) h =
    let (c, done, ok) = handle_message_total (a.heap p) kind topic (h.tidy p) in
    (
      record a { heap = update a.heap p c },
      rw done refl,
      record {
        sound = h.sound;
        below = h.below;
        tidy = λ q. elim (Bool-cases (q == p)) [ inl e ↦ rw e ok | inr e ↦ rw e (h.tidy q) ];
      },
    )

pub new_app-IsHub : (heap : ℕ → Client) → ((p : ℕ) → IsTidy (heap p)) → IsHub (new_app heap)
unfolding new_app
new_app-IsHub heap h = record {
  sound = record { fits = omega arith; distinct = λ a. omega arith };
  below = tt;
  tidy = h;
}

step_total : (a : App) (e : Event) → IsHub a → (a' : App) × (step a e ≡ some a') × IsHub a'
unfolding step
step_total a (connected claims) h = (register a claims, refl, register-IsHub a claims h)
step_total a (received p m) h = elim (Bool-cases (any (λ q. q == p) (view a.clients))) [
  | inl e ↦ let (a', done, ok) = receive_total a p m h in (a', rw e done, ok)
  | inr e ↦ (a, rw e refl, h)
]

-- From a sound hub, whatever the clients send and in whatever order, no removal inside a ranging loop
-- panics, and the hub stays one of distinct clients with distinct subscriptions.
pub run_total : (a : App) (es : List Event) → IsHub a → (a' : App) × (run a es ≡ some a') × IsHub a'
unfolding run
run_total a [] h = (a, refl, h)
run_total a (e ∷ es) h =
    let (b, one, ok) = step_total a e h in
    let (a', done, ok') = run_total b es ok in (a', rw (one, run) done, ok')

per_subscription_none :
    (p : ℕ) (t : String) (subs : List String) (out : List ℕ)
    → count (λ s. str_eq s t) subs ≡ 0
    → per_subscription p t subs out ≡ out
unfolding per_subscription
per_subscription_none p t [] out h = refl
per_subscription_none p t (s ∷ subs) out h = elim (Bool-cases (str_eq s t)) [
  | inl e ↦ absurd (ground arith)
  | inr e ↦ rw e (per_subscription_none p t subs out (ground arith))
]

per_subscription_once :
    (p : ℕ) (t : String) (subs : List String) (out : List ℕ)
    → count (λ s. str_eq s t) subs ≤ 1
    → per_subscription p t subs out ≡ (if any (λ s. str_eq s t) subs then out ++ p ∷ [] else out)
unfolding per_subscription
per_subscription_once p t [] out h = refl
per_subscription_once p t (s ∷ subs) out h = elim (Bool-cases (str_eq s t)) [
  | inl e ↦ rw e (per_subscription_none p t subs (out ++ p ∷ []) (ground arith))
  | inr e ↦ rw e (per_subscription_once p t subs out (ground arith))
]

collect-keep :
    (heap : ℕ → Client) (t : String) (ps out : List ℕ)
    → ((p : ℕ) → IsTidy (heap p))
    → collect heap t ps out ≡ out ++ keep (λ p. is_subscribed (heap p) t) ps
unfolding collect is_subscribed
collect-keep heap t [] out h = sym (append-nil out)
collect-keep heap t (p ∷ ps) out h =
    rw (per_subscription_once p t (view (heap p).subs) out ((h p).distinct t))
      (elim (Bool-cases (is_subscribed (heap p) t)) [
        | inl e ↦ rw e (collect-keep heap t ps (out ++ p ∷ []) h ∙ append_assoc out (p ∷ []) _)
        | inr e ↦ rw e (collect-keep heap t ps out h)
      ])

-- In a sound hub, a broadcast goes to the registered clients that are subscribed to it, in their order, and to each
-- exactly once.
pub broadcast-keep :
    (a : App) (topic : String)
    → IsHub a
    → broadcast a topic ≡ keep (λ p. is_subscribed (a.heap p) topic) (view a.clients)
unfolding broadcast
broadcast-keep a topic h = collect-keep a.heap topic (view a.clients) [] h.tidy
