-- ===== src/Stats/Oldest.antt =====
-- Which readings server/service/stats keeps.
use abstruse.Prelude.{
  ℕ, suc, ◌-◌, ◌≤◌, ◌≡◌, refl, sym, ap, ◌∙◌, true, false, List, [], ◌∷◌, ◌++◌, arith, map, drop,
  length, length-append, length-drop, ltb, append_assoc, append-nil, map-append, Bool-cases, inl,
  inr, if◌then◌else◌,
}
use abstruse.Prelude.Cuts.{drop-append, drop-drop}
use abstruse.Stats.{
  Reading, StatsService, record_reading, handle_usage, run, new_service, get_history, without,
}

-- The last 119 elements.
abbrev pub newest : {A : Type 0} → List A → List A
newest xs = drop (length xs - 119) xs

-- The first reading and the newest of the others.
abbrev pub first_and_newest : {A : Type 0} → List A → List A
first_and_newest [] = []
first_and_newest (x ∷ xs) = x ∷ newest xs

length-newest : {A : Type 0} (xs : List A) → length (newest xs) ≤ 119
length-newest xs = omega (arith, length-drop (length xs - 119) xs)

newest-append :
    {A : Type 0} (xs : List A) (y : A) → newest (newest xs ++ y ∷ []) ≡ newest (xs ++ y ∷ [])
newest-append xs y =
    let m = length xs - 119 in
    let ys = xs ++ y ∷ [] in
    ap newest (sym (drop-append m xs (y ∷ []) (omega arith)))
    ∙ drop-drop (length (drop m ys) - 119) m ys
    ∙ ap (λ k. drop k ys) (omega (arith, length-drop m ys, length-append xs (y ∷ [])))

over : (n : ℕ) → ltb 120 (suc n) ≡ true → n ≤ 120 → n ≡ 120
over n e h = ground arith

short : (n : ℕ) → ltb 120 (suc n) ≡ false → 0 ≡ n - 119
short n e = ground arith

-- The element taken out is the second one, if any is.
cut :
    {A : Type 0} (x : A) (ys : List A)
    → length ys ≤ 120
    → (if ltb 120 (suc (length ys)) then without (suc (length ys) - 120) (x ∷ ys) else x ∷ ys)
      ≡ x ∷ newest ys
cut x ys h = elim (Bool-cases (ltb 120 (suc (length ys)))) [
  | inl e ↦ rw (e, over (length ys) e h) refl
  | inr e ↦ rw e (ap (λ k. x ∷ drop k ys) (short (length ys) e))
]

record_reading-newest :
    {A : Type 0} (xs : List A) (y : A)
    → record_reading (first_and_newest xs) y ≡ first_and_newest (xs ++ y ∷ [])
unfolding record_reading
record_reading-newest [] y = refl
record_reading-newest (x ∷ xs) y =
    cut x (newest xs ++ y ∷ [])
      (omega (arith, length-newest xs, length-append (newest xs) (y ∷ [])))
    ∙ ap (◌∷◌ x) (newest-append xs y)

-- What the service holds after some readings.
abbrev after : List Reading → StatsService
after rs = record {
  history = first_and_newest (map (λ r. r.usage) rs);
  stats = first_and_newest (map (λ r. r.scheduler) rs);
}

handled :
    {B : Type 0} (f : Reading → B) (rs : List Reading) (r : Reading)
    → record_reading (first_and_newest (map f rs)) (f r) ≡ first_and_newest (map f (rs ++ r ∷ []))
handled f rs r =
    record_reading-newest (map f rs) (f r) ∙ ap first_and_newest (sym (map-append f rs (r ∷ [])))

handle_usage-after :
    (rs : List Reading) (r : Reading) → (handle_usage (after rs) r).0 ≡ after (rs ++ r ∷ [])
unfolding handle_usage
handle_usage-after rs r = rw (handled (λ r. r.usage) rs r, handled (λ r. r.scheduler) rs r) refl

run-after : (rs us : List Reading) → run (after rs) us ≡ after (rs ++ us)
unfolding run
run-after rs [] = ap after (sym (append-nil rs))
run-after rs (u ∷ us) =
    ap (λ s. run s us) (handle_usage-after rs u)
    ∙ run-after (rs ++ u ∷ []) us
    ∙ ap after (append_assoc rs (u ∷ []) us)

-- After any number of ticks the service has the first reading of all and the newest 119 of the others,
-- of the machine and of the scheduler, and so never more than 120 of each: the first reading stays for
-- ever.
pub run-Oldest :
    (r : Reading) (rs : List Reading)
    → let kept = get_history (run new_service (r ∷ rs)) in
      (kept.0 ≡ r.usage ∷ newest (map (λ r. r.usage) rs))
      × (kept.1 ≡ r.scheduler ∷ newest (map (λ r. r.scheduler) rs))
      × (length kept.0 ≤ 120)
      × (length kept.1 ≤ 120)
unfolding get_history
run-Oldest r rs = rw (run-after [] (r ∷ rs)) (
  refl,
  refl,
  omega (arith, length-newest (map (λ r. r.usage) rs)),
  omega (arith, length-newest (map (λ r. r.scheduler) rs)),
)
