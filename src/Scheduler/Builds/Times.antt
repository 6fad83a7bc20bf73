-- ===== src/Scheduler/Builds/Times.antt =====
-- The times of a build, as `updateBuildTime` of server/scheduler/scheduler.go computes them.
use abstruse.Prelude.{
  ℕ, ◌≤◌, ◌≡◌, ◌⊎◌, inl, inr, ◌↔◌, refl, true, false, List, [], ◌∷◌, Option, none, some, arith, All,
  Option-cases, ltb, subst, sym, ap, ◌∙◌, eq_iff, Bool-cases,
}
use abstruse.Core.{Job}
use abstruse.Scheduler.Builds.{earlier, later, scan, all_passing}

-- Whether a time is one of the jobs' end times, or the one that the loop began with.
abbrev pub EndsAt : ℕ → List Job → Type 0
EndsAt t [] = ⊥
EndsAt t (j ∷ js) = (j.end_time ≡ some t) ⊎ EndsAt t js

abbrev pub StartsAt : ℕ → List Job → Type 0
StartsAt t [] = ⊥
StartsAt t (j ∷ js) = (j.start_time ≡ some t) ⊎ StartsAt t js

-- A job that is over at the time, or before it.
abbrev pub EndedBy : ℕ → Job → Type 0
EndedBy t j = (e : ℕ) × (j.end_time ≡ some e) × (e ≤ t)

abbrev pub AtLeast : ℕ → Option ℕ → Type 0
AtLeast t none = Unit {0}
AtLeast t (some b) = t ≤ b

-- A job that did not begin before the time.
abbrev pub NotBefore : ℕ → Job → Type 0
NotBefore t j = AtLeast t j.start_time

scan_next :
    (j : Job) (js : List Job) (start end : Option ℕ) (x : ℕ)
    → j.end_time ≡ some x
    → scan (j ∷ js) start end ≡ scan js (earlier start j.start_time) (later end x)
unfolding scan
scan_next j js start end x q = rw q

scan_break :
    (j : Job) (js : List Job) (start end : Option ℕ)
    → j.end_time ≡ none
    → (scan (j ∷ js) start end).0 ≡ false
unfolding scan
scan_break j js start end q = rw q

later-some :
    (a x : ℕ) → (m : ℕ) × (later (some a) x ≡ some m) × (a ≤ m) × (x ≤ m) × ((a ≡ m) ⊎ (x ≡ m))
unfolding later
later-some a x = elim (Bool-cases (ltb a x)) [
  | inl e ↦ (x, ground arith, ground arith, ground arith, inr refl)
  | inr e ↦ (a, ground arith, ground arith, ground arith, inl refl)
]

pick_last :
    {o : Option ℕ} {E : Type 0} (a x m t : ℕ)
    → o ≡ some x
    → (a ≡ m) ⊎ (x ≡ m)
    → (m ≡ t) ⊎ E
    → (a ≡ t) ⊎ ((o ≡ some t) ⊎ E)
pick_last a x m t q (inl p) (inl r) = inl (p ∙ r)
pick_last a x m t q (inr p) (inl r) = inr (inl (q ∙ ap some (p ∙ r)))
pick_last a x m t q w (inr e) = inr (inr e)

scan_ends :
    (js : List Job) (start : Option ℕ) (a : ℕ)
    → (scan js start (some a)).0 ≡ true
    → (t : ℕ) × ((scan js start (some a)).2 ≡ some t)
      × (a ≤ t)
      × All (EndedBy t) js
      × ((a ≡ t) ⊎ EndsAt t js)
unfolding scan
scan_ends [] start a h = (a, refl, ground arith, tt, inl refl)
scan_ends (j ∷ js) start a h = elim (Option-cases j.end_time) [
  | inl q ↦ cc (scan_break j js start (some a) q)
  | inr (x, q) ↦
      let (m, e, am, xm, which) = later-some a x in
      let step : scan (j ∷ js) start (some a) ≡ scan js (earlier start j.start_time) (some m) =
        scan_next j js start (some a) x q ∙ ap (scan js (earlier start j.start_time)) e in
      let (t, r, mt, all, last) =
        scan_ends js (earlier start j.start_time) m (sym (ap (λ w. w.0) step) ∙ h) in
      (
        t,
        ap (λ w. w.2) step ∙ r,
        omega arith,
        ((x, q, omega arith), all),
        pick_last a x m t q which last,
      )
]

first_ends :
    (j : Job) (js : List Job) (x m : ℕ)
    → j.end_time ≡ some x
    → x ≤ m
    → All (EndedBy m) js
    → (x ≡ m) ⊎ EndsAt m js
    → All (EndedBy m) (j ∷ js) × EndsAt m (j ∷ js)
first_ends j js x m q xm all (inl p) = (((x, q, xm), all), inl (q ∙ ap some p))
first_ends j js x m q xm all (inr p) = (((x, q, xm), all), inr p)

scan_end_latest :
    (js : List Job) (start : Option ℕ) (t : ℕ)
    → scan js none none ≡ (true, start, some t)
    → All (EndedBy t) js × EndsAt t js
unfolding scan later
scan_end_latest [] start t h = absurd (ground arith)
scan_end_latest (j ∷ js) start t h = elim (Option-cases j.end_time) [
  | inl q ↦ cc (scan_break j js none none q, ap (λ w. w.0) h)
  | inr (x, q) ↦
      let step = scan_next j js none none x q in
      let (m, r, xm, all, last) =
        scan_ends js (earlier none j.start_time) x (sym (ap (λ w. w.0) step) ∙ ap (λ w. w.0) h) in
      let e : some m ≡ some t = sym r ∙ (sym (ap (λ w. w.2) step) ∙ ap (λ w. w.2) h) in
      subst (λ n. All (EndedBy n) (j ∷ js) × EndsAt n (j ∷ js)) (cc e)
        (first_ends j js x m q xm all last)
]

earlier-some :
    (a : ℕ) (o : Option ℕ)
    → (m : ℕ) × (earlier (some a) o ≡ some m) × (m ≤ a) × AtLeast m o × ((a ≡ m) ⊎ (o ≡ some m))
unfolding earlier
earlier-some a none = (a, refl, omega arith, tt, inl refl)
earlier-some a (some b) = elim (Bool-cases (ltb b a)) [
  | inl e ↦ (b, ground arith, ground arith, ground arith, inr refl)
  | inr e ↦ (a, ground arith, ground arith, ground arith, inl refl)
]

AtLeast-mono : (m n : ℕ) (o : Option ℕ) → m ≤ n → AtLeast n o → AtLeast m o
AtLeast-mono m n none h k = tt
AtLeast-mono m n (some b) h k = omega arith

pick_first :
    {o : Option ℕ} {E : Type 0} (a m t : ℕ)
    → (a ≡ m) ⊎ (o ≡ some m)
    → (m ≡ t) ⊎ E
    → (a ≡ t) ⊎ ((o ≡ some t) ⊎ E)
pick_first a m t (inl p) (inl r) = inl (p ∙ r)
pick_first a m t (inr p) (inl r) = inr (inl (p ∙ ap some r))
pick_first a m t w (inr e) = inr (inr e)

scan_starts :
    (js : List Job) (a : ℕ) (end : Option ℕ)
    → (scan js (some a) end).0 ≡ true
    → (t : ℕ) × ((scan js (some a) end).1 ≡ some t)
      × (t ≤ a)
      × All (NotBefore t) js
      × ((a ≡ t) ⊎ StartsAt t js)
unfolding scan
scan_starts [] a end h = (a, refl, ground arith, tt, inl refl)
scan_starts (j ∷ js) a end h = elim (Option-cases j.end_time) [
  | inl q ↦ cc (scan_break j js (some a) end q)
  | inr (x, q) ↦
      let (m, e, ma, least, which) = earlier-some a j.start_time in
      let step : scan (j ∷ js) (some a) end ≡ scan js (some m) (later end x) =
        scan_next j js (some a) end x q ∙ ap (λ s. scan js s (later end x)) e in
      let (t, r, tm, all, first) = scan_starts js m (later end x) (sym (ap (λ w. w.0) step) ∙ h) in
      (
        t,
        ap (λ w. w.1) step ∙ r,
        omega arith,
        (AtLeast-mono t m j.start_time tm least, all),
        pick_first a m t which first,
      )
]

first_starts :
    (j : Job) (js : List Job) (b t : ℕ)
    → j.start_time ≡ some b
    → t ≤ b
    → All (NotBefore t) js
    → (b ≡ t) ⊎ StartsAt t js
    → All (NotBefore t) (j ∷ js) × StartsAt t (j ∷ js)
first_starts j js b t q tb all (inl p) = ((rw q tb, all), inl (q ∙ ap some p))
first_starts j js b t q tb all (inr p) = ((rw q tb, all), inr p)

scan_first_start :
    (js : List Job) (t : ℕ) (end : Option ℕ)
    → (scan js none end).0 ≡ true
    → (scan js none end).1 ≡ some t
    → All (NotBefore t) js × StartsAt t js
unfolding scan earlier
scan_first_start [] t end h k = cc
scan_first_start (j ∷ js) t end h k = elim (Option-cases j.end_time) [
  | inl q ↦ cc (scan_break j js none end q)
  | inr (x, q) ↦ elim (Option-cases j.start_time) [
    | inl z ↦
        let step : scan (j ∷ js) none end ≡ scan js none (later end x) =
          scan_next j js none end x q ∙ ap (λ s. scan js s (later end x)) (rw (z, earlier)) in
        let (all, first) =
          scan_first_start js t (later end x) (sym (ap (λ w. w.0) step) ∙ h)
            (sym (ap (λ w. w.1) step) ∙ k) in
        ((rw z tt, all), inr first)
    | inr (b, z) ↦
        let step : scan (j ∷ js) none end ≡ scan js (some b) (later end x) =
          scan_next j js none end x q ∙ ap (λ s. scan js s (later end x)) (rw (z, earlier)) in
        let (m, r, mb, all, first) =
          scan_starts js b (later end x) (sym (ap (λ w. w.0) step) ∙ h) in
        let e : some m ≡ some t = sym r ∙ (sym (ap (λ w. w.1) step) ∙ k) in
        subst (λ n. All (NotBefore n) (j ∷ js) × StartsAt n (j ∷ js)) (cc e)
          (first_starts j js b m z mb all first)
  ]
]

-- When the loop finds every job over and gives a start and an end, they are the earliest start time
-- and the latest end time: each is a time of one of the jobs, no job began before the one, and every
-- job has ended by the other.
pub scan_times :
    (js : List Job) (b t : ℕ)
    → scan js none none ≡ (true, some b, some t)
    → (All (NotBefore b) js × StartsAt b js) × (All (EndedBy t) js × EndsAt t js)
scan_times js b t h = (
  scan_first_start js b none (ap (λ w. w.0) h) (ap (λ w. w.1) h),
  scan_end_latest js (some b) t h,
)

-- The build is reported as a success exactly when every job's status is "passing".
all_passing_iff : (js : List Job) → (all_passing js ≡ true) ↔ All (λ j. j.status ≡ "passing") js
unfolding all_passing
all_passing_iff [] = ((λ _. tt), (λ _. refl))
all_passing_iff (j ∷ js) = ground (arith, eq_iff j.status "passing", all_passing_iff js)
