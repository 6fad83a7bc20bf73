-- ===== src/Remote/Stream.antt =====
-- What `StartJob` of server/core/worker.go makes of a stream of responses.
use abstruse.Prelude.{
  String, ◌≡◌, refl, sym, ap, ◌∙◌, Bool, true, false, List, [], ◌∷◌, ◌++◌, map, keep, Option, none,
  append-nil, append_assoc, if◌then◌else◌,
}
use abstruse.Pb.{JobResp, JobRespType, log, done, cache}
use abstruse.Pb
use abstruse.Remote.{status_text, on_response, receive, stream_job}

abbrev pub is_log : JobRespType → Bool
is_log log = true
is_log _ = false

abbrev pub status_after : JobRespType → JobResp → String → String
status_after done r status = status_text r.status
status_after _ r status = status

-- The status of the last response that carries one, or the one that there was.
abbrev pub last_status : List JobResp → String → String
last_status [] status = status
last_status (r ∷ rs) status = last_status rs (status_after r.type r status)

abbrev pub contents : List JobResp → List String
contents rs = map (λ r. r.content) (keep (λ r. is_log r.type) rs)

abbrev pub reference : List JobResp → Pb.Job → Pb.Job
reference rs job = record job { log = job.log ++ contents rs; status = last_status rs job.status }

reference-cons :
    (t : JobRespType) (r : JobResp) (rs : List JobResp) (job : Pb.Job)
    → reference rs (on_response t r job) ≡ record job {
      log =
          job.log
          ++ map
              (λ x. x.content)
              (if is_log t then r ∷ keep (λ x. is_log x.type) rs else keep (λ x. is_log x.type) rs);
      status = last_status rs (status_after t r job.status);
    }
reference-cons log r rs job =
    ap (λ l. record job { log = l; status = last_status rs job.status })
      (append_assoc job.log (r.content ∷ []) (contents rs))
reference-cons done r rs job = refl
reference-cons cache r rs job = refl

-- When the call succeeds, and however the stream ends, the job that `StartJob` returns has the contents
-- of the log responses behind its log, in order, the status of the last response that says one, and
-- nothing else changed; the error is that of the stream's end.
pub stream_job-reference :
    (rs : List JobResp) (ending : Option String) (job : Pb.Job)
    → stream_job none rs ending job ≡ (reference rs job, ending)
unfolding stream_job receive
stream_job-reference [] ending job =
    ap (λ l. (record job { log = l }, ending)) (sym (append-nil job.log))
stream_job-reference (r ∷ rs) ending job =
    stream_job-reference rs ending (on_response r.type r job)
    ∙ ap (λ j. (j, ending)) (reference-cons r.type r rs job)
