-- ===== src/Worker/Server/Keys.antt =====
-- The keys of the map of the running jobs of worker/app/server.go, and the calls in progress.
use mathlib.Core.Bool.{true≢false}
use abstruse.Prelude.{
  All, ℕ, zero, suc, ◌≡◌, inl, inr, refl, sym, ap, subst, ◌∙◌, arith, Bool, true, false, not, List,
  [], ◌∷◌, ◌++◌, ◌||◌, Option, none, some, any, ◌==◌, ==_iff, or_true_left, or_true_right,
  either_true, any-Memᴰ, Memᴰ-any, keep-Memᴰ,
}
use abstruse.Worker.Server.{Call, holds, delete, call_at, behind}

-- A call for the job is in progress.
abbrev pub called : ℕ → List Call → Bool
called id calls = any (λ c. c.job.id == id) calls

abbrev pub Covered : List ℕ → List Call → Type 0
Covered jobs calls = (id : ℕ) → holds id jobs ≡ true → called id calls ≡ true

distinct : (x k id : ℕ) → not (x == k) ≡ true → x ≡ id → (k == id) ≡ false
distinct x k id h e = ground (arith, e)

some-pair : {o p : Call × List Call} → some o ≡ some p → o ≡ p
some-pair e = cc

-- What is left after a deletion was there and is another key.
pub holds-delete :
    (id k : ℕ) (jobs : List ℕ)
    → holds id (delete k jobs) ≡ true
    → (holds id jobs ≡ true) × ((k == id) ≡ false)
unfolding holds delete
holds-delete id k jobs h =
    let (x, m, at) = any-Memᴰ (λ j. j == id) (delete k jobs) h in
    let (there, kept) = keep-Memᴰ (λ j. not (j == k)) jobs m in
    (Memᴰ-any (λ j. j == id) there at, distinct x k id kept ((==_iff x id).0 at))

pub delete-Covered :
    (k : ℕ) (jobs : List ℕ) (c : Call) (rest : List Call)
    → c.job.id ≡ k
    → ((id : ℕ) → holds id jobs ≡ true → (called id (c ∷ rest) ≡ true))
    → Covered (delete k jobs) rest
delete-Covered k jobs c rest e h id there =
    let (was, other) = holds-delete id k jobs there in
    elim (either_true (c.job.id == id) _ (h id was)) [
      | inl here ↦ absurd (true≢false (sym (ap (λ n. n == id) (sym e) ∙ here) ∙ other))
      | inr else_where ↦ else_where
    ]

swap_or : (a b c : Bool) → (a || (b || c)) ≡ (b || (a || c))
swap_or true true c = refl
swap_or true false c = refl
swap_or false b c = refl

-- The call taken out and the others are all the calls.
pub called-call_at :
    (i : ℕ) (calls rest : List Call) (c : Call) (id : ℕ)
    → call_at i calls ≡ some (c, rest)
    → called id calls ≡ called id (c ∷ rest)
unfolding call_at
called-call_at i [] rest c id h = absurd (cc)
called-call_at zero (d ∷ ds) rest c id h = ap (called id) (ap (λ p. p.0 ∷ p.1) (some-pair h))
called-call_at (suc i) (d ∷ ds) rest c id h =
    from (λ x others. called-call_at i ds others x id) (call_at i ds) refl h
  where
    from :
        ((x : Call) (others : List Call)
          → call_at i ds ≡ some (x, others)
          → called id ds ≡ called id (x ∷ others))
        → (o : Option (Call × List Call)) → call_at i ds ≡ o
        → behind d o ≡ some (c, rest)
        → called id (d ∷ ds) ≡ called id (c ∷ rest)
    from ih none e h = absurd (cc)
    from ih (some (x, others)) e h =
        ap (λ b. (d.job.id == id) || b) (ih x others e)
        ∙ (swap_or (d.job.id == id) (x.job.id == id) (called id others)
            ∙ ap (λ p. called id (p.0 ∷ p.1)) (some-pair h))

pub called-append :
    (id : ℕ) (cs : List Call) (c : Call)
    → called id (cs ++ c ∷ []) ≡ (called id cs || (c.job.id == id))
called-append id [] c = ground (arith)
called-append id (d ∷ cs) c = ground (arith, called-append id cs c)

pub covered :
    (jobs : List ℕ) (calls : List Call)
    → All (λ id. called id calls ≡ true) jobs
    → Covered jobs calls
unfolding holds
covered [] calls h id there = absurd (cc)
covered (j ∷ js) calls h id there = elim (either_true (j == id) _ there) [
  | inl here ↦ subst (λ n. called n calls ≡ true) ((==_iff j id).0 here) h.0
  | inr else_where ↦ covered js calls h.1 id else_where
]

pub All-called :
    (jobs : List ℕ) (calls : List Call)
    → Covered jobs calls
    → All (λ id. called id calls ≡ true) jobs
unfolding holds
All-called [] calls h = tt
All-called (j ∷ js) calls h = (
  h j (or_true_left _ ((==_iff j j).1 refl)),
  All-called js calls (λ id there. h id (or_true_right (j == id) there)),
)
