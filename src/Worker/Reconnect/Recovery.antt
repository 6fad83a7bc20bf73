-- ===== src/Worker/Reconnect/Recovery.antt =====
-- How a worker reconnects, where no other connection is lost meanwhile.
use abstruse.Prelude.{String, ℕ, zero, suc, ◌-◌, ◌<◌, ◌≡◌, refl, subst, none, some, arith}
use abstruse.Worker.Reconnect.{
  waiting, requesting, sending, finished, App, Move, start_answered, start_failed, start_put, taken,
  lost, answered, failed, put, at, moved, move,
}

-- No connection is lost, and a request fails only while failures are left.
abbrev pub Allowed : Move → ℕ → Type 0
Allowed (lost e) n = ⊥
Allowed (failed e) n = 0 < n
Allowed _ n = Unit

abbrev pub left_after : Move → ℕ → ℕ
left_after (failed e) n = n - 1
left_after _ n = n

-- Whatever is done next, with at most `n` more failures, the loop comes to rest at the select with an
-- empty channel; until then something can be done.
pub data Recovers : ℕ → App → Type 0 where
  rests : (n : ℕ) (a : App) → a.loop ≡ waiting → a.buffer ≡ none → Recovers n a
  goes_on :
      (n : ℕ) (a : App) (m : Move) (b : App)
      → move m a ≡ some b
      → Allowed m n
      → ((m : Move) (b : App) → move m a ≡ some b → Allowed m n → Recovers (left_after m n) b)
      → Recovers n a

at_rest : (n : ℕ) → Recovers n (at waiting none finished)
at_rest n = rests n (at waiting none finished) refl refl

some_same : {a b : App} → some a ≡ some b → a ≡ b
some_same e = cc

module _ (n : ℕ) where
  after_taken :
      (e : String)
      → Recovers n (at requesting none finished)
      → (m : Move) (b : App) → moved m waiting (some e) finished ≡ some b
      → Allowed m n
      → Recovers (left_after m n) b
  unfolding moved
  after_taken e r start_answered b h k = absurd (cc)
  after_taken e r (start_failed e') b h k = absurd (cc)
  after_taken e r start_put b h k = absurd (cc)
  after_taken e r taken b h k = subst (Recovers n) (some_same h) r
  after_taken e r (lost e') b h k = absurd k
  after_taken e r answered b h k = absurd (cc)
  after_taken e r (failed e') b h k = absurd (cc)
  after_taken e r put b h k = absurd (cc)

  take_error :
      (e : String)
      → Recovers n (at requesting none finished)
      → Recovers n (at waiting (some e) finished)
  unfolding move moved
  take_error e r =
      goes_on n (at waiting (some e) finished) taken (at requesting none finished) refl tt
        (after_taken e r)

  after_put :
      (e : String)
      → Recovers n (at waiting (some e) finished)
      → (m : Move) (b : App) → moved m (sending e) none finished ≡ some b
      → Allowed m n
      → Recovers (left_after m n) b
  unfolding moved
  after_put e r start_answered b h k = absurd (cc)
  after_put e r (start_failed e') b h k = absurd (cc)
  after_put e r start_put b h k = absurd (cc)
  after_put e r taken b h k = absurd (cc)
  after_put e r (lost e') b h k = absurd k
  after_put e r answered b h k = absurd (cc)
  after_put e r (failed e') b h k = absurd (cc)
  after_put e r put b h k = subst (Recovers n) (some_same h) r

  put_error :
      (e : String)
      → Recovers n (at waiting (some e) finished)
      → Recovers n (at (sending e) none finished)
  unfolding move moved
  put_error e r =
      goes_on n (at (sending e) none finished) put (at waiting (some e) finished) refl tt
        (after_put e r)

after_answer :
    (n : ℕ)
    → ((e : String) → 0 < n → Recovers (n - 1) (at (sending e) none finished))
    → (m : Move) (b : App) → moved m requesting none finished ≡ some b
    → Allowed m n
    → Recovers (left_after m n) b
unfolding moved
after_answer n r start_answered b h k = absurd (cc)
after_answer n r (start_failed e') b h k = absurd (cc)
after_answer n r start_put b h k = absurd (cc)
after_answer n r taken b h k = absurd (cc)
after_answer n r (lost e') b h k = absurd k
after_answer n r answered b h k = subst (Recovers n) (some_same h) (at_rest n)
after_answer n r (failed e) b h k = subst (Recovers (n - 1)) (some_same h) (r e k)
after_answer n r put b h k = absurd (cc)

ask_again : (n : ℕ) → Recovers n (at requesting none finished)
unfolding move moved
ask_again zero =
    goes_on zero (at requesting none finished) answered (at waiting none finished) refl tt
      (after_answer zero (λ e k. absurd (omega arith)))
ask_again (suc n) =
    goes_on (suc n) (at requesting none finished) answered (at waiting none finished) refl tt (
      after_answer (suc n) (λ e k.
        let one_less : n ≡ suc n - 1 = omega arith in
        subst (λ k. Recovers k (at (sending e) none finished)) one_less
          (put_error n e (take_error n e (ask_again n)))))

-- After a connection is lost, or with an error in the channel, and the first request over: if the
-- server fails at most `n` more requests and no other connection is lost, then whatever the order of
-- events, the loop sooner or later stands at the select again with nothing in the channel. Until then
-- there is always something that can be done.
pub lost-Recovers :
    (n : ℕ) (e : String)
    → Recovers n (at (sending e) none finished) × Recovers n (at waiting (some e) finished)
lost-Recovers n e = let r = take_error n e (ask_again n) in (put_error n e r, r)
