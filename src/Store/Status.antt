-- ===== src/Store/Status.antt =====
-- `FindStatus` of server/store/build/build.go: the status that a badge shows. The two queries are
-- parameters; an error of either gives the status "unknown" with it.
use mathlib.Core.Path.{ap₂}
use abstruse.Prelude.{
  Result, ok, err, panic, ap, ℕ, String, ◌≡◌, refl, ◌∙◌, Bool, true, false, ◌||◌, List, [], ◌∷◌,
  Option, none, some, any, str_eq, if◌then◌else◌, arith,
}
use abstruse.Core.{Repository, Job}
use abstruse.Scheduler.Builds.{FoundBuild}

abbrev build_status_unknown : String
build_status_unknown = "unknown"

abbrev build_status_passing : String
build_status_passing = "passing"

abbrev build_status_failing : String
build_status_failing = "failing"

abbrev build_status_running : String
build_status_running = "running"

abbrev color_of : String → String
color_of status =
    if str_eq status build_status_passing
    then "#48bb78"
    else if str_eq status build_status_failing
    then "#e74c3c"
    else if str_eq status build_status_running
    then "#ecc94b"
    else "#555555"

-- The loop over the jobs.
unfoldable pub scan_status : List Job → Bool → Bool → Bool × Bool
scan_status [] running failing = (running, failing)
scan_status (j ∷ js) running failing =
    scan_status js (if str_eq j.status "running" then true else running)
      (if str_eq j.status "failing" then true else failing)

abbrev pub status_of : Bool × Bool → String
status_of (running, failing) =
    if running
    then build_status_running
    else if failing
    then build_status_failing
    else build_status_passing

-- `find_token` is FindToken of the repositories' store; `last_build` is the last build of a branch
-- without a pull request, with its jobs.
pub record Queries (S : Type 0) : Type 0 where
  pub find_token : String → S → Option Repository
  pub last_build : ℕ → String → S → Result FoundBuild

abbrev pub asked_branch : Repository → String → String
asked_branch repo branch = if str_eq branch "" then repo.default_branch else branch

module _ {S : Type 0} (queries : Queries S) where
  abbrev status_found : Result FoundBuild → Result String
  status_found (ok b) = ok (status_of (scan_status b.jobs false false))
  status_found (err e) = err e
  status_found panic = panic

  abbrev status_in : Option Repository → String → S → Result String
  status_in none branch s = err "repository not found"
  status_in (some repo) branch s =
      status_found (queries.last_build repo.id (asked_branch repo branch) s)

  unfoldable pub find_status : String → String → S → Result String
  unfolding scan_status
  find_status token branch s = status_in (queries.find_token token s) branch s

  -- server/api/badge/badge.go: the status and the colour that the badge is rendered from.
  abbrev badge_shown : Result String → Result (String × String)
  badge_shown (ok status) = ok (status, color_of status)
  badge_shown (err e) = ok (build_status_unknown, color_of build_status_unknown)
  badge_shown panic = panic

  unfoldable pub badge : String → String → S → Result (String × String)
  unfolding find_status
  badge token branch s = badge_shown (find_status token branch s)

-- The status of a list of jobs, by what is among them.
abbrev pub reference_status : List Job → String
reference_status jobs =
    if any (λ j. str_eq j.status "running") jobs
    then build_status_running
    else if any (λ j. str_eq j.status "failing") jobs
    then build_status_failing
    else build_status_passing

raised : (b c d : Bool) → ((if b then true else c) || d) ≡ (c || (b || d))
raised true true d = refl
raised true false d = refl
raised false c d = refl

scan_status-any :
    (jobs : List Job) (r f : Bool)
    → scan_status jobs r f ≡ (
      r || any (λ j. str_eq j.status "running") jobs,
      f || any (λ j. str_eq j.status "failing") jobs,
    )
unfolding scan_status
scan_status-any [] r f = ap₂ (λ a b. (a, b)) (ground arith) (ground arith)
scan_status-any (j ∷ js) r f =
    scan_status-any js _ _
    ∙ ap₂ (λ a b. (a, b)) (raised (str_eq j.status "running") r _)
        (raised (str_eq j.status "failing") f _)

-- Where the repository and a build of the branch are found, the branch being the repository's default
-- branch if none is asked for, the status is running if any job runs, else failing if any job has
-- failed, else passing; so a build whose jobs all wait counts as passing.
pub find_status-reference :
    {S : Type 0} (queries : Queries S) (token branch : String) (s : S) (repo : Repository)
    (b : FoundBuild)
    → queries.find_token token s ≡ some repo
    → queries.last_build repo.id (asked_branch repo branch) s ≡ ok b
    → find_status queries token branch s ≡ ok (reference_status b.jobs)
unfolding find_status
find_status-reference queries token branch s repo b er eb =
    ap (λ o. status_in queries o branch s) er
    ∙ (ap (status_found queries) eb
        ∙ ap (λ p. ok (status_of p)) (scan_status-any b.jobs false false))
