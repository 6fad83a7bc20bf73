-- ===== src/Pipeline/Calls.antt =====
-- The handlers of server/api/build on the server: the store of builds and the scheduler as their arguments.
-- A call of the scheduler gives the state it leaves, also with an error.
use abstruse.Prelude.{ℕ, String, Bool, Option, none, some, Result, ok, err}
use abstruse.Core.{Perms, Build}
use abstruse.Gitscm.{GoScm}
use abstruse.Scheduler.Builds.{Services}
use abstruse.Scheduler.State.{Scheduler}
use abstruse.Scheduler.Ops
use abstruse.Store.Builds.{Tables, Engines, trigger_build}
use abstruse.Api.Builds.{Backend}

abbrev pub or_error : {A S : Type 0} → A → S × Option String → Result A × S
or_error a (s, none) = (ok a, s)
or_error a (s, some e) = (err e, s)

abbrev pub or_error_of : {A S : Type 0} → S × A × Option String → Result A × S
or_error_of (s, a, e) = or_error a (s, e)

-- What an effect on the database does to the scheduler's state.
abbrev pub on_outside : {S A : Type 0} → Scheduler S → Result A × S → Result A × Scheduler S
on_outside sch (r, s) = (r, record sch { outside = s })

-- What the database answers to the handlers' own queries is left open.
module _ {S : Type 0} (find_build : ℕ → S → Result Build) (permissions : ℕ → ℕ → S → Perms)
    (svc : Services S) (red : String → String) (engines : Engines) (go_scm : GoScm S)
    (tables : Tables S) (now : ℕ) (stopped : Bool) where
  unfoldable pub backend : Backend (Scheduler S)
  unfolding trigger_build
  backend = record {
    find_job = λ id sch. tables.find_job id sch.outside;
    find_build = λ id sch. find_build id sch.outside;
    permissions = λ id user sch. permissions id user sch.outside;
    trigger = λ opts sch. on_outside sch (trigger_build engines go_scm tables opts sch.outside);
    next = λ job sch. (ok tt, Ops.next svc red job now stopped sch);
    stop = λ id sch. or_error_of (Ops.stop svc red id now stopped sch);
    stop_build = λ id sch. or_error tt (Ops.stop_build svc red id now stopped sch);
    restart_build = λ id sch. or_error tt (Ops.restart_build svc red id now stopped sch);
  }
