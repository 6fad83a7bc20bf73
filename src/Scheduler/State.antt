-- ===== src/Scheduler/State.antt =====
-- The state of the scheduler, server/scheduler/scheduler.go: the fields of the struct, the workers,
-- and the goroutines that run `startJob`. A job is a value here: whoever writes through a `*core.Job`
-- writes to the entry that holds it, and the goroutine that still holds the pointer overwrites what
-- was written.
use abstruse.Prelude.{
  ℕ, zero, suc, Bool, List, [], ◌∷◌, Option, none, some, arith, ◌≡◌, ◌==◌, if◌then◌else◌,
}
use abstruse.Core.{Job}
use abstruse.Pb
use abstruse.Scheduler.Workers.{Registry, Heap}

-- type jobType struct
pub record JobType : Type 0 where
  pub job : Job
  pub pb : Pb.Job
  pub timeout : ℕ

-- A goroutine of `startJob`, with the worker that it holds: not yet begun, or waiting for the worker.
pub data Run : Type 0 where
  dispatched : Job → ℕ → Run
  started : Job → ℕ → Run

-- `ready` is the channel of capacity one.
pub record Scheduler (S : Type 0) : Type 0 where
  pub ready : Bool
  pub paused : Bool
  pub queued : List Job
  pub pending : List (ℕ × JobType)
  pub registry : Registry
  pub heap : Heap
  pub runs : List Run
  pub outside : S

-- The map of the pending jobs.
unfoldable pub lookup : ℕ → List (ℕ × JobType) → Option JobType
lookup id [] = none
lookup id ((k, v) ∷ m) = if k == id then some v else lookup id m

unfoldable pub delete : ℕ → List (ℕ × JobType) → List (ℕ × JobType)
delete id [] = []
delete id ((k, v) ∷ m) = let rest = delete id m in if k == id then rest else (k, v) ∷ rest

unfoldable pub insert : ℕ → JobType → List (ℕ × JobType) → List (ℕ × JobType)
unfolding delete
insert id v m = (id, v) ∷ delete id m

pub lookup-delete :
    (id k : ℕ) (m : List (ℕ × JobType))
    → lookup id (delete k m) ≡ (if k == id then none else lookup id m)
unfolding lookup delete
lookup-delete id k [] = ground arith
lookup-delete id k ((j, v) ∷ m) = ground (arith, lookup-delete id k m)

-- The goroutine at a place, and the others.
unfoldable pub take_run : ℕ → List Run → Option (Run × List Run)
take_run i [] = none
take_run zero (r ∷ rs) = some (r, rs)
take_run (suc i) (r ∷ rs) = elim (take_run i rs) [
  | none ↦ none
  | some (r', rs') ↦ some (r', r ∷ rs')
]
