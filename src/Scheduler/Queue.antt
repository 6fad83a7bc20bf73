-- ===== src/Scheduler/Queue.antt =====
-- `enqueueJob`, `findJob` and `removeJob` of server/scheduler/scheduler.go, on the queued jobs.
-- The removal stops at the first hit, so nothing reads the array that it shifts.
pub mod Laws
use abstruse.Prelude.{ℕ, List, [], ◌∷◌, Option, none, some, ◌==◌, if◌then◌else◌}
use abstruse.Core.{Job}

-- The first job and the rest; the error "no jobs queued" is `none`.
unfoldable pub enqueue_job : List Job → Option (Job × List Job)
enqueue_job [] = none
enqueue_job (j ∷ js) = some (j, js)

unfoldable pub find_job : ℕ → List Job → Option Job
find_job id [] = none
find_job id (j ∷ js) = if j.id == id then some j else find_job id js

unfoldable pub remove_job : ℕ → List Job → List Job
remove_job id [] = []
remove_job id (j ∷ js) = if j.id == id then js else j ∷ remove_job id js
