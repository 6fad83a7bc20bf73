-- ===== src/Remote.antt =====
-- `StartJob` and the loop of `usageStats` of server/core/worker.go: what the server reads from a worker.
-- The gRPC client is third-party code: whether a call fails, and what a stream yields until it ends,
-- are arguments. The broadcasts of the log lines are left out.
pub mod Stream
pub mod Window
pub mod Connection
use abstruse.Prelude.{
  ℕ, ◌-◌, String, List, [], ◌∷◌, ◌++◌, Option, none, some, drop, length, ltb, if◌then◌else◌,
}
use abstruse.Pb.{
  JobResp, JobRespType, log, done, cache, JobStatus, unknown, queued, running, passing, failing,
}
use abstruse.Pb

unfoldable pub status_text : JobStatus → String
status_text unknown = "unknown"
status_text failing = "failing"
status_text passing = "passing"
status_text queued = "queued"
status_text running = "running"

-- The switch on the type of a response; its `break` leaves the switch and not the loop.
abbrev pub on_response : JobRespType → JobResp → Pb.Job → Pb.Job
on_response log r job = record job { log = job.log ++ r.content ∷ [] }
on_response done r job = record job { status = status_text r.status }
on_response cache r job = job

-- The loop: the responses, and then the error of `Recv`, which is `none` for io.EOF.
unfoldable pub receive : List JobResp → Option String → Pb.Job → Pb.Job × Option String
receive [] ending job = (job, ending)
receive (r ∷ rs) ending job = receive rs ending (on_response r.type r job)

-- `StartJob`, with the error of the call.
unfoldable pub stream_job :
    Option String → List JobResp → Option String → Pb.Job → Pb.Job × Option String
unfolding receive status_text
stream_job (some e) responses ending job = (job, some e)
stream_job none responses ending job = receive responses ending job

pub record WorkerUsage : Type 0 where
  pub cpu : ℕ
  pub mem : ℕ
  pub max : ℕ
  pub running : ℕ
  pub timestamp : ℕ

-- w.Usage = append(w.Usage, usage); if len(w.Usage) > 120 { w.Usage = w.Usage[len(w.Usage)-120:] }
unfoldable pub push_usage : List WorkerUsage → WorkerUsage → List WorkerUsage
push_usage usage u =
    let all = usage ++ u ∷ [] in if ltb 120 (length all) then drop (length all - 120) all else all

-- The loop of `usageStats`, with the readings that the stream yields.
unfoldable pub usage_stats : List WorkerUsage → List WorkerUsage → List WorkerUsage
unfolding push_usage
usage_stats usage [] = usage
usage_stats usage (u ∷ us) = usage_stats (push_usage usage u) us
