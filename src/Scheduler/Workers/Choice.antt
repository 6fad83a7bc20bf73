-- ===== src/Scheduler/Workers/Choice.antt =====
-- Which worker `findWorker` of server/scheduler/scheduler.go takes.
use mathlib.Core.List.{Memᴰ}
use abstruse.Prelude.{
  ℕ, ◌-◌, ◌≤◌, ◌<◌, ◌≡◌, refl, sym, subst, ◌∙◌, ◌⊎◌, inl, inr, ltb, true, false, List, [], ◌∷◌,
  Option, none, some, arith, All, Bool-cases,
}
use abstruse.Scheduler.Workers.{Heap, Registry, find_loop, list, find_worker}

-- The free places of a worker.
abbrev pub spare : Heap → ℕ → ℕ
spare heap p = (heap p).max - (heap p).running

-- The answer has free places, at least as many as any worker listed; there is none exactly where no
-- worker listed has a free place.
abbrev pub IsBest : Heap → List ℕ → Option ℕ → Type 0
IsBest heap ps none = All (λ q. spare heap q ≡ 0) ps
IsBest heap ps (some p) = Memᴰ p ps × (0 < spare heap p) × All (λ q. spare heap q ≤ spare heap p) ps

find_loop-some :
    (heap : Heap) (ps : List ℕ) (p c : ℕ)
    → c ≡ spare heap p
    → (q : ℕ) × (find_loop heap ps (some p) c ≡ some q)
      × ((q ≡ p) ⊎ Memᴰ q ps)
      × (c ≤ spare heap q)
      × All (λ r. spare heap r ≤ spare heap q) ps
unfolding find_loop
find_loop-some heap [] p c e = (p, refl, inl refl, omega arith, tt)
find_loop-some heap (r ∷ ps) p c e = elim (Bool-cases (ltb c (spare heap r))) [
  | inl h ↦
      let (q, f, w, m, all) = find_loop-some heap ps r (spare heap r) refl in
      (q, rw h f, later q r w, ground arith, (m, all))
  | inr h ↦
      let (q, f, w, m, all) = find_loop-some heap ps p c e in
      (q, rw h f, stays q w, m, (ground arith, all))
]
  where
    later : (q r : ℕ) → (q ≡ r) ⊎ Memᴰ q ps → (q ≡ p) ⊎ Memᴰ q (r ∷ ps)
    later q r (inl e) = inr (Memᴰ.head e)
    later q r (inr m) = inr (Memᴰ.tail m)

    stays : (q : ℕ) → (q ≡ p) ⊎ Memᴰ q ps → (q ≡ p) ⊎ Memᴰ q (r ∷ ps)
    stays q (inl e) = inl e
    stays q (inr m) = inr (Memᴰ.tail m)

loop_hit :
    (heap : Heap) (r : ℕ) (ps : List ℕ)
    → ltb 0 (spare heap r) ≡ true
    → find_loop heap (r ∷ ps) none 0 ≡ find_loop heap ps (some r) (spare heap r)
unfolding find_loop
loop_hit heap r ps h = rw h

loop_skip :
    (heap : Heap) (r : ℕ) (ps : List ℕ)
    → ltb 0 (spare heap r) ≡ false
    → find_loop heap (r ∷ ps) none 0 ≡ find_loop heap ps none 0
unfolding find_loop
loop_skip heap r ps h = rw h

IsBest-skip :
    (heap : Heap) (r : ℕ) (ps : List ℕ) (o : Option ℕ)
    → spare heap r ≡ 0
    → IsBest heap ps o
    → IsBest heap (r ∷ ps) o
IsBest-skip heap r ps none z b = (z, b)
IsBest-skip heap r ps (some p) z (m, pos, all) = (Memᴰ.tail m, pos, (omega arith, all))

IsBest-found :
    (heap : Heap) (r q : ℕ) (ps : List ℕ)
    → 0 < spare heap r
    → (q ≡ r) ⊎ Memᴰ q ps
    → spare heap r ≤ spare heap q
    → All (λ x. spare heap x ≤ spare heap q) ps
    → IsBest heap (r ∷ ps) (some q)
IsBest-found heap r q ps pos (inl e) m all = (Memᴰ.head e, omega arith, (m, all))
IsBest-found heap r q ps pos (inr w) m all = (Memᴰ.tail w, omega arith, (m, all))

find_loop-none : (heap : Heap) (ps : List ℕ) → IsBest heap ps (find_loop heap ps none 0)
unfolding find_loop
find_loop-none heap [] = tt
find_loop-none heap (r ∷ ps) = elim (Bool-cases (ltb 0 (spare heap r))) [
  | inl h ↦
      let (q, f, w, m, all) = find_loop-some heap ps r (spare heap r) refl in
      subst (IsBest heap (r ∷ ps)) (sym (loop_hit heap r ps h ∙ f))
        (IsBest-found heap r q ps (ground arith) w m all)
  | inr h ↦
      subst (IsBest heap (r ∷ ps)) (sym (loop_skip heap r ps h))
        (IsBest-skip heap r ps _ (ground arith) (find_loop-none heap ps))
]

-- `findWorker` answers with a worker that has a free place and as many as any other, and with none
-- exactly where no worker has a free place.
pub find_worker-IsBest : (heap : Heap) (ws : Registry) → IsBest heap (list ws) (find_worker heap ws)
unfolding find_worker
find_worker-IsBest heap ws = find_loop-none heap (list ws)
