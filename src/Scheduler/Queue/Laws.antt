-- ===== src/Scheduler/Queue/Laws.antt =====
-- The queue of server/scheduler/scheduler.go holds each job id at most once.
use abstruse.Prelude.{
  ℕ, ◌≤◌, ◌≡◌, refl, sym, ap, Bool, not, List, [], ◌∷◌, ◌++◌, none, arith, count, keep, ◌==◌,
  Bool-cases, inl, inr, count-append,
}
use abstruse.Core.{Job}
use abstruse.Scheduler.Queue.{find_job, remove_job}

abbrev pub has_id : ℕ → Job → Bool
has_id id j = j.id == id

abbrev pub Once : List Job → Type 0
Once js = (id : ℕ) → count (has_id id) js ≤ 1

pub find_job_none : (id : ℕ) (js : List Job) → find_job id js ≡ none → count (has_id id) js ≡ 0
unfolding find_job
find_job_none id [] h = refl
find_job_none id (j ∷ js) h = ground (arith, find_job_none id js)

keep_absent :
    (id : ℕ) (js : List Job) → count (has_id id) js ≤ 0 → keep (λ j. not (has_id id j)) js ≡ js
keep_absent id [] h = refl
keep_absent id (j ∷ js) h = ground (arith, keep_absent id js)

pub remove_job_absent : (id : ℕ) (js : List Job) → count (has_id id) js ≡ 0 → remove_job id js ≡ js
unfolding remove_job
remove_job_absent id [] h = refl
remove_job_absent id (j ∷ js) h = ground (arith, remove_job_absent id js)

-- Where no id stands twice, removing by id drops exactly the jobs of that id.
pub remove_job-keep :
    (id : ℕ) (js : List Job)
    → count (has_id id) js ≤ 1
    → remove_job id js ≡ keep (λ j. not (has_id id j)) js
unfolding remove_job
remove_job-keep id [] h = refl
remove_job-keep id (j ∷ js) h = elim (Bool-cases (has_id id j)) [
  | inl e ↦ rw e (sym (keep_absent id js (ground arith)))
  | inr e ↦ rw e (ap (◌∷◌ j) (remove_job-keep id js (ground arith)))
]

pub count-remove_job_le :
    (a id : ℕ) (js : List Job) → count (has_id a) (remove_job id js) ≤ count (has_id a) js
unfolding remove_job
count-remove_job_le a id [] = omega arith
count-remove_job_le a id (j ∷ js) = ground (arith, count-remove_job_le a id js)

pub count-remove_job_self :
    (id : ℕ) (js : List Job) → count (has_id id) js ≤ 1 → count (has_id id) (remove_job id js) ≡ 0
unfolding remove_job
count-remove_job_self id [] h = refl
count-remove_job_self id (j ∷ js) h = ground (arith, count-remove_job_self id js)

pub Once-concat :
    (js : List Job) (j : Job) → Once js → count (has_id j.id) js ≡ 0 → Once (js ++ j ∷ [])
Once-concat js j h z id = elim (Bool-cases (has_id id j)) [
  | inl e ↦ rw (count-append (has_id id) js (j ∷ []), e) (ground arith)
  | inr e ↦ rw (count-append (has_id id) js (j ∷ []), e) (ground (arith, h id))
]
