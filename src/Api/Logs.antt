-- ===== src/Api/Logs.antt =====
-- The handlers of server/api/build that show a job and its log, on the scheduler's state, whose outside
-- is the database.
pub mod Shown
use abstruse.Prelude.{ℕ, String, Bool, Option, none, some, str_eq, if◌then◌else◌, Result}
use abstruse.Core.{Job}
use abstruse.Auth.Request.{Token}
use abstruse.Auth.FromJwt.{user_claims_from_jwt}
use abstruse.Scheduler.State.{Scheduler}
use abstruse.Scheduler.Ops.{job_log}
use abstruse.Api.Answer.{bad_request, forbidden, not_found, Handler, or_render, render_json}

-- `if currentLog, err := …; err == nil { job.Log = currentLog }`
abbrev pub or_stored : String → String × Option String → String
or_stored stored (log, none) = log
or_stored stored (log, some e) = stored

unfoldable pub current_log : {S : Type 0} → ℕ → Job → Scheduler S → String
unfolding job_log
current_log id job s = or_stored job.log (job_log id s)

-- `find_user` is FindUser of the store of jobs; `strip` takes the escape sequences out of a log.
module _ {S : Type 0} (find_user : ℕ → ℕ → S → Result Job) (strip : String → String) where
  unfoldable pub handle_find_job : Result ℕ → ℕ → Handler (Scheduler S) Job
  unfolding current_log
  handle_find_job address user = or_render bad_request address (λ id s.
      or_render not_found (find_user id user s.outside)
        (λ job. render_json (record job { log = current_log id job s })) s)

  abbrev pub found_log : Result ℕ → ℕ → Handler (Scheduler S) String
  found_log address user = or_render bad_request address (λ id s.
      or_render not_found (find_user id user s.outside)
        (λ job. render_json (strip (current_log id job s))) s)

  -- The token is a value of the query.
  unfoldable pub handle_log :
      (String → Result Token) → String → Result ℕ → Handler (Scheduler S) String
  unfolding user_claims_from_jwt current_log
  handle_log parse token address s =
      if str_eq token ""
      then (forbidden "token not provided", s)
      else or_render (λ e. forbidden "invalid token") (user_claims_from_jwt parse token)
          (λ claims. found_log address claims.id) s
