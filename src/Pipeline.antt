-- ===== src/Pipeline.antt =====
-- The parts together: the handler of server/api/webhook/hook.go with the stores of server/store/build and
-- the scheduler of server/scheduler as its arguments, on the scheduler's state, whose outside is the
-- database. The time and what a worker answers to a stop are the same during one request.
pub mod Queue
pub mod Calls
pub mod Manual
pub mod Stopped
use abstruse.Prelude.{ℕ, String, Bool, List, [], Option, none, some, Result, ok, err, panic}
use abstruse.Core.{Repository, GitHook, Job}
use abstruse.Gitscm.{GoScm}
use abstruse.Scheduler.Builds.{Services}
use abstruse.Scheduler.State.{Scheduler}
use abstruse.Scheduler.Ops
use abstruse.Store.Builds.{Tables, Engines, generate_build}
use abstruse.Webhook.Handler.{Stores}

-- The jobs and the error that the handler reads. A panic ends the request like an error.
abbrev pub as_triple :
    {S : Type 0} → Scheduler S → Result (List Job × ℕ) × S → Scheduler S × List Job × Option String
as_triple sch (ok (jobs, id), s) = (record sch { outside = s }, jobs, none)
as_triple sch (err e, s) = (record sch { outside = s }, [], some e)
as_triple sch (panic, s) = (record sch { outside = s }, [], some "panic")

-- What the database answers to the handler's own queries is left open.
module _ {S : Type 0} (repositories : S → Option (List Repository))
    (find_uid : String → S → Option Repository) (svc : Services S) (red : String → String)
    (engines : Engines) (go_scm : GoScm S) (tables : Tables S) (now : ℕ) (stopped : Bool) where
  unfoldable pub server : Stores (Scheduler S)
  unfolding generate_build
  server = record {
    repositories = λ sch. repositories sch.outside;
    find_uid = λ uid sch. find_uid uid sch.outside;
    generate_build =
        λ repo hook sch. as_triple sch (generate_build engines go_scm tables repo hook sch.outside);
    next = λ job sch. (Ops.next svc red job now stopped sch, none);
  }
