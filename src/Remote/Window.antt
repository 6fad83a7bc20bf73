-- ===== src/Remote/Window.antt =====
-- The window of the usage readings of server/core/worker.go.
use abstruse.Prelude.{
  ℕ, ◌-◌, ◌≤◌, ◌≡◌, refl, sym, ap, subst, ◌∙◌, false, List, [], ◌∷◌, ◌++◌, arith, drop, length,
  length-append, length-drop, ltb, append-nil, append_assoc, Bool-cases, inl, inr, if◌then◌else◌,
}
use abstruse.Prelude.Cuts.{drop-append, drop-drop}
use abstruse.Remote.{WorkerUsage, push_usage, usage_stats}

-- The last 120 elements.
abbrev pub latest {ℓ} : {A : Type ℓ} → List A → List A
latest xs = drop (length xs - 120) xs

short : (n : ℕ) → ltb 120 n ≡ false → 0 ≡ n - 120
short n e = ground arith

-- The cut does nothing where the list is short enough.
cut :
    (xs : List WorkerUsage)
    → (if ltb 120 (length xs) then drop (length xs - 120) xs else xs) ≡ latest xs
cut xs = elim (Bool-cases (ltb 120 (length xs))) [
  | inl e ↦ rw e refl
  | inr e ↦ rw e (ap (λ k. drop k xs) (short (length xs) e))
]

push_usage-latest :
    (xs : List WorkerUsage) (u : WorkerUsage) → push_usage (latest xs) u ≡ latest (xs ++ u ∷ [])
unfolding push_usage
push_usage-latest xs u =
    let m = length xs - 120 in
    let ys = xs ++ u ∷ [] in
    cut (latest xs ++ u ∷ [])
    ∙ ap latest (sym (drop-append m xs (u ∷ []) (omega arith)))
    ∙ drop-drop (length (drop m ys) - 120) m ys
    ∙ ap (λ k. drop k ys) (omega (arith, length-drop m ys, length-append xs (u ∷ [])))

usage_stats_all : (xs us : List WorkerUsage) → usage_stats (latest xs) us ≡ latest (xs ++ us)
unfolding usage_stats
usage_stats_all xs [] = ap latest (sym (append-nil xs))
usage_stats_all xs (u ∷ us) =
    ap (λ l. usage_stats l us) (push_usage-latest xs u)
    ∙ usage_stats_all (xs ++ u ∷ []) us
    ∙ ap latest (append_assoc xs (u ∷ []) us)

length-latest : (xs : List WorkerUsage) → length (latest xs) ≤ 120
length-latest xs = omega (arith, length-drop (length xs - 120) xs)

-- From the last 120 of any list of readings on, the loop keeps the last 120 of all the readings, and so
-- never more than 120.
pub usage_stats-latest :
    (xs us : List WorkerUsage)
    → (usage_stats (latest xs) us ≡ latest (xs ++ us)) × (length (usage_stats (latest xs) us) ≤ 120)
usage_stats-latest xs us = (
  usage_stats_all xs us,
  subst (λ l. length l ≤ 120) (sym (usage_stats_all xs us)) (length-latest (xs ++ us)),
)
