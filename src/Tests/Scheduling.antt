-- ===== src/Tests/Scheduling.antt =====
-- The theorems on the scheduler at concrete states.
use mathlib.Core.List.{Memᴰ}
use abstruse.Prelude.{
  ◌+◌, ◌<◌, ◌≡◌, refl, true, false, List, [], ◌∷◌, none, some, arith, join, map, cat,
}
use abstruse.Core.{Job}
use abstruse.Scheduler.Builds.{scan, earlier, later}
use abstruse.Scheduler.Queue.{find_job}
use abstruse.Scheduler.Workers.{Heap, Registry, find_worker, find_loop, list}
use abstruse.Scheduler.Workers.Choice.{IsBest, find_worker-IsBest}
use abstruse.Scheduler.State.{dispatched, started, lookup}
use abstruse.Scheduler.Start.{start_job, end_job}
use abstruse.Scheduler.Ops.{
  Event, next_job, stop_job, restart, ready, joins, goes_on, pauses, resumes, process, stop,
  job_log, tick,
}
use abstruse.Scheduler.Ops.Invariant.{Inv}
use abstruse.Scheduler.Ops.Queueing.{held, held-tick}
use abstruse.Scheduler.Ops.Stopping.{stop_gone}
use abstruse.Scheduler.Ops.Races.{overcommit, late_end_unstoppable}
use abstruse.Scheduler.Env.{job_envs}
use abstruse.Scheduler.Env.Split.{plain_env, job_envs-join, job_envs_cut}
use abstruse.Parser.Env.{entry}
use abstruse.Tests.Data.{job, pb_job, services, red, unmarshal_commands, heap, scheduler}

abbrev pub one : Job
one = job 1 "queued" none none

abbrev pub two : Job
two = job 2 "queued" none none

pub both-Inv : Inv (scheduler (one ∷ two ∷ []) (("host", 0) ∷ []))
both-Inv = record { once = λ id. ground arith; counted = λ p. refl }

-- Two jobs run on one worker, one after the other, and the second is stopped and restarted.
abbrev events : List Event
events =
    joins 0
    ∷ ready
    ∷ goes_on 0 pb_job none 5
    ∷ next_job two 6 true
    ∷ goes_on 0 pb_job none 9
    ∷ ready
    ∷ goes_on 0 pb_job none 10
    ∷ stop_job 2 11 true
    ∷ restart 3 12 false
    ∷ goes_on 0 pb_job (some "context canceled") 13
    ∷ pauses
    ∷ resumes
    ∷ []

held-tick_example :
    held 1 (tick (scheduler (one ∷ two ∷ []) (("host", 0) ∷ [])))
    ≡ held 1 (scheduler (one ∷ two ∷ []) (("host", 0) ∷ []))
held-tick_example = held-tick 1 (scheduler (one ∷ two ∷ []) (("host", 0) ∷ []))

stop_gone_example :
    let t = (stop services red 2 4 true (scheduler (one ∷ two ∷ []) (("host", 0) ∷ []))).0 in
    (find_job 2 t.queued ≡ none) × (find_job 2 (one ∷ two ∷ []) ≡ none → lookup 2 t.pending ≡ none)
stop_gone_example =
    stop_gone services red 2 4 true (scheduler (one ∷ two ∷ []) (("host", 0) ∷ [])) both-Inv

abbrev uneven : Heap
uneven p = record { id = "a"; host_id = "a"; max = 3 + p; running = 1 }

abbrev registry : Registry
registry = ("a", 0) ∷ ("b", 1) ∷ []

find_worker-IsBest_example : IsBest uneven (list registry) (find_worker uneven registry)
find_worker-IsBest_example = find_worker-IsBest uneven registry

abbrev over : List Job
over = job 1 "passing" (some 5) (some 9) ∷ job 2 "failing" (some 3) (some 12) ∷ []

scan-over : scan over none none ≡ (true, some 3, some 12)
unfolding scan earlier later
scan-over = refl

job_envs-join_example :
    job_envs (join (map entry (("A", "1") ∷ ("B", "x") ∷ [])) " ")
    ≡ map plain_env (("A", "1") ∷ ("B", "x") ∷ [])
job_envs-join_example = job_envs-join (("A", "1") ∷ ("B", "x") ∷ []) (ground arith)

job_envs_cut_example : job_envs (entry ("T", cat "a" (cat "=" "b"))) ≡ plain_env ("T", "a") ∷ []
job_envs_cut_example = job_envs_cut "T" "a" "b" (ground arith) (ground arith) (ground arith)

picks_first : find_worker heap (("host", 0) ∷ []) ≡ some 0
unfolding find_worker find_loop list
picks_first = refl

overcommit_example :
    let s = scheduler (one ∷ two ∷ []) (("host", 0) ∷ []) in
    let t = (process (process s).0).0 in
    let u =
      start_job services red unmarshal_commands two 0 [] 6
        (start_job services red unmarshal_commands one 0 [] 6 t) in
    (t.runs ≡ dispatched one 0 ∷ dispatched two 0 ∷ []) × ((u.heap 0).max < (u.heap 0).running)
overcommit_example =
    overcommit services red unmarshal_commands (scheduler (one ∷ two ∷ []) (("host", 0) ∷ [])) 0 6
      one two [] [] [] refl picks_first refl refl

no_job : find_job 1 [] ≡ none
unfolding find_job
no_job = refl

late_end_unstoppable_example :
    let t =
      end_job services red unmarshal_commands one 0
        (started one 0 ∷ [])
        pb_job
        none
        8
        (scheduler [] (("host", 0) ∷ [])) in
    (Memᴰ (started one 0) t.runs)
    × (job_log 1 t ≡ ("", some "job not running"))
    × (stop services red 1 8 true t ≡ (t, false, none))
late_end_unstoppable_example =
    late_end_unstoppable services red unmarshal_commands (scheduler [] (("host", 0) ∷ [])) one one 0
      0 (started one 0 ∷ []) pb_job none 8 true refl (Memᴰ.head refl) no_job
