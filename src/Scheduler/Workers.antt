-- ===== src/Scheduler/Workers.antt =====
-- The workers: server/core/worker.go, as far as the scheduler reads it, server/worker/registry.go,
-- and `findWorker` and `getWorker` of server/scheduler/scheduler.go. A `*Worker` is a number, and
-- the heap gives what it points to, so that a worker that left the registry keeps its counters.
pub mod Choice
use abstruse.Prelude.{
  ℕ, zero, ◌+◌, ◌-◌, String, List, [], ◌∷◌, map, Option, none, some, ltb, str_eq, if◌then◌else◌,
}

-- `id` is the identity of the connection, `host_id` the key in the registry.
pub record Worker : Type 0 where
  pub id : String
  pub host_id : String
  pub max : ℕ
  pub running : ℕ

-- The map of the registry, by its keys.
abbrev pub Registry : Type 0
Registry = List (String × ℕ)

abbrev pub Heap : Type 0
Heap = ℕ → Worker

unfoldable pub delete : String → Registry → Registry
delete key [] = []
delete key ((k, p) ∷ ws) = let rest = delete key ws in if str_eq k key then rest else (k, p) ∷ rest

unfoldable pub add : Heap → ℕ → Registry → Registry
unfolding delete
add heap p ws = ((heap p).host_id, p) ∷ delete (heap p).host_id ws

-- `List`: the order is that of the map's iteration.
unfoldable pub list : Registry → List ℕ
list ws = map (λ w. w.1) ws

-- The loop of `findWorker`. The counters are ints, and `c` is never negative, so the truncated
-- difference passes the test exactly where the int does.
unfoldable pub find_loop : Heap → List ℕ → Option ℕ → ℕ → Option ℕ
find_loop heap [] worker c = worker
find_loop heap (p ∷ ps) worker c =
    let diff = (heap p).max - (heap p).running in
    find_loop heap ps (if ltb c diff then some p else worker) (if ltb c diff then diff else c)

unfoldable pub find_worker : Heap → Registry → Option ℕ
unfolding find_loop list
find_worker heap ws = find_loop heap (list ws) none 0

-- The loop of `getWorker`; the error "worker not found" is `none`.
unfoldable pub get_loop : Heap → String → List ℕ → Option ℕ
get_loop heap id [] = none
get_loop heap id (p ∷ ps) = if str_eq (heap p).id id then some p else get_loop heap id ps

unfoldable pub get_worker : Heap → Registry → String → Option ℕ
unfolding get_loop list
get_worker heap ws id = get_loop heap id (list ws)
