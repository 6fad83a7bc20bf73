-- ===== src/Remote/Connection/Races.antt =====
-- What a lost connection does to the registry when it is not the last one of its worker, or ends early.
use abstruse.Prelude.{
  ℕ, ◌≡◌, refl, sym, ap, ◌∙◌, String, Bool, true, false, ◌==◌, not, keep, eq_iff, ==-refl, ==-comm,
  List, [], ◌∷◌, any, none, ok, arith,
}
use abstruse.Scheduler.Workers.{Registry, add, delete}
use abstruse.Remote.Connection.{
  HostInfo, Links, Attempt, new_worker, connect, register, disconnect, handle_auth, authorized,
  registered, ended, step, run,
}

abbrev pub listed : ℕ → Registry → Bool
listed p ws = any (λ w. w.1 == p) ws

listed-delete :
    (key : String) (p : ℕ) (ws : Registry) → listed p ws ≡ false → listed p (delete key ws) ≡ false
unfolding delete
listed-delete key p [] h = refl
listed-delete key p ((k, q) ∷ ws) h = ground (arith, listed-delete key p ws)

-- The handler connects: every call of it succeeds.
abbrev pub Connects : Attempt → HostInfo → Type 0
Connects a info = (port : String) × (a.port ≡ ok port) × (a.dialled ≡ none) × (a.info ≡ ok info)

abbrev linked : ℕ → String → HostInfo → Links → Links
linked p id info s = connect p info (new_worker p id s)

linked_own :
    (p : ℕ) (id : String) (info : HostInfo) (s : Links)
    → ((linked p id info s).heap p).host_id ≡ info.id
unfolding connect new_worker
linked_own p id info s = rw (==-refl p) refl

linked_other :
    (p q : ℕ) (id : String) (info : HostInfo) (s : Links)
    → (p == q) ≡ false
    → (linked q id info s).heap p ≡ s.heap p
unfolding connect new_worker
linked_other p q id info s h = rw h refl

deleted :
    (q : ℕ) (k k' : String) (ws : Registry)
    → k ≡ k'
    → listed q ws ≡ false
    → listed q (delete k' ((k, q) ∷ delete k ws)) ≡ false
unfolding delete
deleted q k k' ws same new =
    rw ((eq_iff k k').1 same) (listed-delete k' q (delete k ws) (listed-delete k q ws new))

-- A worker that connects under the key of `p` is delisted by the end of `p`.
delisted :
    (p q : ℕ) (id : String) (info : HostInfo) (t : Links)
    → (t.heap p).host_id ≡ info.id
    → (p == q) ≡ false
    → listed q t.registry ≡ false
    → listed q (disconnect p (register q (linked q id info t))).registry ≡ false
unfolding disconnect register connect new_worker add
delisted p q id info t same differ new =
    deleted q _ _ t.registry
      (linked_own q id info t
        ∙ sym (ap (λ w. w.host_id) (linked_other p q id info t differ) ∙ same))
      new

added_other :
    (s : Links) (p q : ℕ)
    → (p == q) ≡ false
    → listed q s.registry ≡ false
    → listed q (register p s).registry ≡ false
unfolding register add
added_other s p q differ new = rw differ (listed-delete _ q s.registry new)

watched-keep :
    (p q : ℕ) (ws : List ℕ)
    → (q == p) ≡ false
    → any (λ w. w == q) (keep (λ w. not (w == p)) (q ∷ ws)) ≡ true
watched-keep p q ws h = rw h (rw (==-refl q) refl)

watched-gone : (p : ℕ) (ws : List ℕ) → any (λ w. w == p) (keep (λ w. not (w == p)) ws) ≡ false
watched-gone p [] = refl
watched-gone p (w ∷ ws) = ground (arith, watched-gone p ws)

authorized-Connects :
    (p : ℕ) (id : String) (a : Attempt) (info : HostInfo) (s : Links)
    → Connects a info
    → step (authorized p id a) s ≡ linked p id info s
unfolding step handle_auth
authorized-Connects p id a info s (port, e, f, g) = rw (e, handle_auth) (rw f (rw g refl))

-- A worker that lost its connection and came back under the same key: when the old connection's loop
-- ends only then, the new connection is taken out of the registry, while its own loop runs on.
pub late_end-Delists :
    (p q : ℕ) (id id' : String) (a a' : Attempt) (info info' : HostInfo) (s : Links)
    → Connects a info
    → Connects a' info'
    → info.id ≡ info'.id
    → (p == q) ≡ false
    → listed q s.registry ≡ false
    → let t =
        run
          (authorized p id a ∷ registered p ∷ authorized q id' a' ∷ registered q ∷ ended p ∷ [])
          s in
      (listed q t.registry ≡ false) × (any (λ w. w == q) t.watched ≡ true)
unfolding run step register connect disconnect new_worker
late_end-Delists p q id id' a a' info info' s c c' same differ new =
    let t = register p (linked p id info s) in
    let e : run
          (authorized p id a ∷ registered p ∷ authorized q id' a' ∷ registered q ∷ ended p ∷ []) s
        ≡ disconnect p (register q (linked q id' info' t)) =
      ap (λ u. disconnect p (register q (step (authorized q id' a') (register p u))))
        (authorized-Connects p id a info s c)
      ∙ ap (λ u. disconnect p (register q u)) (authorized-Connects q id' a' info' t c') in
    (
      ap (λ u. listed q u.registry) e
          ∙ delisted p q id' info' t (linked_own p id info s ∙ same) differ
              (added_other (linked p id info s) p q differ new),
      ap (λ u. any (λ w. w == q) u.watched) e
          ∙ watched-keep p q (p ∷ s.watched) (==-comm q p ∙ differ),
    )

-- A connection that ends before `HandleAuth` has added its worker stays in the registry, with no loop
-- that would take it out.
early_end-Stays :
    (p : ℕ) (id : String) (a : Attempt) (info : HostInfo) (s : Links)
    → Connects a info
    → let t = run (authorized p id a ∷ ended p ∷ registered p ∷ []) s in
      (listed p t.registry ≡ true) × (any (λ w. w == p) t.watched ≡ false)
unfolding run step register connect disconnect add new_worker
early_end-Stays p id a info s c =
    let e = ap (λ u. register p (disconnect p u)) (authorized-Connects p id a info s c) in
    (
      ap (λ u. listed p u.registry) e ∙ rw (==-refl p) refl,
      ap (λ u. any (λ w. w == p) u.watched) e ∙ watched-gone p (p ∷ s.watched),
    )
