-- ===== src/Worker/Reconnect/Stuck.antt =====
-- How the loop that reconnects a worker stops for ever.
use abstruse.Prelude.{
  String, ◌≡◌, refl, List, [], ◌∷◌, Option, none, some, Option-cases, inl, inr, arith,
}
use abstruse.Worker.Reconnect.{
  waiting, sending, Starting, asking, putting, finished, App, Move, start_answered, start_failed,
  start_put, taken, lost, answered, failed, put, at, moved, move,
}

-- What a list of moves leads to, one after the other.
unfoldable pub moves : List Move → App → Option App
moves [] a = some a
moves (m ∷ ms) a = elim (move m a) [ none ↦ none | some b ↦ moves ms b ]

-- The loop waits for room in a channel that only it empties.
abbrev pub IsStuck : App → Type 0
IsStuck a = (e e' : String) × (a.loop ≡ sending e) × (a.buffer ≡ some e')

stuck_at :
    (m : Move) (e e' : String) (s : Starting) (b : App)
    → moved m (sending e) (some e') s ≡ some b
    → (b.loop ≡ sending e) × (b.buffer ≡ some e')
unfolding moved
stuck_at start_answered e e' asking b h = (cc, cc)
stuck_at start_answered e e' (putting e0) b h = absurd (cc)
stuck_at start_answered e e' finished b h = absurd (cc)
stuck_at (start_failed e1) e e' asking b h = (cc, cc)
stuck_at (start_failed e1) e e' (putting e0) b h = absurd (cc)
stuck_at (start_failed e1) e e' finished b h = absurd (cc)
stuck_at start_put e e' s b h = absurd (cc)
stuck_at taken e e' s b h = absurd (cc)
stuck_at (lost e1) e e' s b h = absurd (cc)
stuck_at answered e e' s b h = absurd (cc)
stuck_at (failed e1) e e' s b h = absurd (cc)
stuck_at put e e' s b h = absurd (cc)

moves-IsStuck : (ms : List Move) (a b : App) → IsStuck a → moves ms a ≡ some b → IsStuck b
unfolding moves move
moves-IsStuck [] a b (e, e', l, f) h = (e, e', ground arith, ground arith)
moves-IsStuck (m ∷ ms) a b (e, e', l, f) h = elim (Option-cases (move m a)) [
  | inl blocked ↦ absurd (let bad : none ≡ some b = rw (blocked, moves) at h in cc)
  | inr (c, goes) ↦
      let (lc, fc) = stuck_at m e e' a.starting c (rw (l, f) at goes) in
      moves-IsStuck ms c b (e, e', lc, fc) (rw (goes, moves) at h)
]

-- When two connections are lost while the loop is at the select, it puts the first error into the
-- channel, and the second finds no room there; whatever happens then, the loop waits for room for ever, and
-- asks the server for nothing any more.
pub lost_twice-IsStuck :
    (e e' : String) (s : Starting)
    → (moves (lost e ∷ put ∷ lost e' ∷ []) (at waiting none s) ≡ some (at (sending e') (some e) s))
      × ((ms : List Move) (b : App) → moves ms (at (sending e') (some e) s) ≡ some b → IsStuck b)
unfolding moves move moved
lost_twice-IsStuck e e' s = (refl, λ ms b h. moves-IsStuck ms _ b (e', e, refl, refl) h)
