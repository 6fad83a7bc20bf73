-- ===== src/Remote/Connection.antt =====
-- How a worker gets into the registry and out of it: `NewWorker` and `Connect` of server/core/worker.go
-- and `HandleAuth` of server/api/worker/auth.go, over server/worker/registry.go. The loop of
-- `usageStats` is a goroutine of its own, and its end is an event.
pub mod Races
use abstruse.Prelude.{
  ℕ, String, Bool, true, false, not, ◌==◌, str_eq, ◌||◌, List, [], ◌∷◌, keep, Option, none, some,
  Result, ok, err, panic, if◌then◌else◌,
}
use abstruse.Scheduler.Workers.{Worker, Registry, Heap, add, delete}
use abstruse.Api.Answer.{Answer, success, server_error, unauthorized, crashed}

-- pb.HostInfo, as far as the registry and the scheduler read it
pub record HostInfo : Type 0 where
  pub id : String
  pub max_parallel : ℕ

-- `watched` are the workers whose loop of usageStats runs.
pub record Links : Type 0 where
  pub heap : Heap
  pub registry : Registry
  pub watched : List ℕ

abbrev pub put_worker : ℕ → Worker → Heap → Heap
put_worker p w heap q = if q == p then w else heap q

-- `NewWorker`, after the certificate was loaded and the connection was dialled
unfoldable pub new_worker : ℕ → String → Links → Links
new_worker p id s = record s {
  heap = put_worker p (record { id = id; host_id = ""; max = 0; running = 0 }) s.heap;
}

unfoldable pub connect : ℕ → HostInfo → Links → Links
connect p info s = record s {
  heap = put_worker p (record (s.heap p) { host_id = info.id; max = info.max_parallel }) s.heap;
  watched = p ∷ s.watched;
}

unfoldable pub register : ℕ → Links → Links
register p s = record s { registry = add s.heap p s.registry }

-- The end of usageStats with an error: `emitDisconnected`, and `Registry.Delete(w.Host.ID)`.
unfoldable pub disconnect : ℕ → Links → Links
disconnect p s = record s {
  registry = delete (s.heap p).host_id s.registry;
  watched = keep (λ q. not (q == p)) s.watched;
}

-- What the calls of one HandleAuth gave: the port of the claims' address, the host of the remote one
-- if it has a port, NewWorker's error, and what the worker answers.
pub record Attempt : Type 0 where
  pub port : Result String
  pub remote_host : Option String
  pub remote_addr : String
  pub dialled : Option String
  pub info : Result HostInfo

abbrev pub host_of : Attempt → String
host_of a = elim a.remote_host [ none ↦ a.remote_addr | some h ↦ h ]

-- The handler up to `workers.Add`, whose error is always nil.
abbrev pub connected : ℕ → String → Attempt → String → Links → Answer (String × String) × Links
connected p id a port s = elim a.info [
  | ok info ↦ (success (host_of a, port), connect p info (new_worker p id s))
  | err e ↦ (server_error e, new_worker p id s)
  | panic ↦ (crashed, new_worker p id s)
]

unfoldable pub handle_auth : ℕ → String → Attempt → Links → Answer (String × String) × Links
handle_auth p id a s = elim a.port [
  | ok port ↦ elim a.dialled [ none ↦ connected p id a port s | some e ↦ (unauthorized e, s) ]
  | err e ↦ (server_error e, s)
  | panic ↦ (crashed, s)
]

pub data Event : Type 0 where
  authorized : ℕ → String → Attempt → Event
  registered : ℕ → Event
  ended : ℕ → Event

unfoldable pub step : Event → Links → Links
unfolding handle_auth
step (authorized p id a) s = (handle_auth p id a s).1
step (registered p) s = register p s
step (ended p) s = disconnect p s

unfoldable pub run : List Event → Links → Links
run [] s = s
run (e ∷ es) s = run es (step e s)
