-- ===== src/Tests/Stopping.antt =====
-- Two queued jobs of a build that a user stops.
use abstruse.Prelude.{ℕ, ◌≡◌, refl, true, none, some, List, [], ◌∷◌, All, Result, ok}
use abstruse.Core.{Perms, Build, Job}
use abstruse.Scheduler.Builds.{FoundBuild, update_build_time, save_job}
use abstruse.Scheduler.Queue.{find_job, remove_job}
use abstruse.Scheduler.State.{Scheduler}
use abstruse.Scheduler.Ops.{stop_build, stop_all, stop}
use abstruse.Scheduler.Ops.Invariant.{Inv}
use abstruse.Api.Answer.{form, success}
use abstruse.Api.Builds.{handle_stop}
use abstruse.Pipeline.Calls.{backend}
use abstruse.Pipeline.Stopped.{calls, handle_stop-Gone}
use abstruse.Tests.Data.{build, scheduler, services, red}
use abstruse.Tests.Scheduling.{one, two, both-Inv}
use abstruse.Tests.Storing.{go_scm, engines, tables}

abbrev full : Scheduler (List Job)
full = record (scheduler (one ∷ two ∷ []) (("host", 0) ∷ [])) { outside = one ∷ two ∷ [] }

full-Inv : Inv full
full-Inv = record { once = both-Inv.once; counted = both-Inv.counted }

abbrev find_build : ℕ → List Job → Result Build
find_build id rows = ok build

abbrev every_right : ℕ → ℕ → List Job → Perms
every_right id user rows = record { read = true; write = true; exec = true }

abbrev emptied : Scheduler (List Job)
emptied =
    (handle_stop (calls find_build every_right services red engines go_scm tables 4 true) 1 (form 5)
      full).1

stops :
    handle_stop
      (calls find_build every_right services red engines go_scm tables 4 true)
      1
      (form 5)
      full
    ≡ (success tt, emptied)
unfolding handle_stop backend stop_build update_build_time stop_all stop find_job remove_job
    save_job
stops = refl

handle_stop-Gone_example :
    (b : Build) × (f : FoundBuild) × (find_build 5 full.outside ≡ ok b)
    × ((every_right b.repository_id 1 full.outside).exec ≡ true)
    × (services.find_build b.id full.outside ≡ some f)
    × All (λ j. find_job j.id emptied.queued ≡ none) f.jobs
handle_stop-Gone_example =
    handle_stop-Gone find_build every_right services red engines go_scm tables 4 true 1 5 full
      emptied full-Inv stops
