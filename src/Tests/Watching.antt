-- ===== src/Tests/Watching.antt =====
-- The routes, the statistics, the logs and the builds that users trigger, at concrete inputs.
use Prim.Native.String.{len}
use abstruse.Prelude.{
  ℕ, ◌<◌, ◌≡◌, ◌≤◌, ◌↔◌, refl, arith, map, length, false, String, List, [], ◌∷◌, true, none, some,
  Result, ok,
}
use abstruse.Core.{Job}
use abstruse.Stats.{Reading, run, new_service, get_history}
use abstruse.Stats.Oldest.{newest, run-Oldest}
use abstruse.Auth.Claims.{MapClaims, create_map}
use abstruse.Auth.Request.{Request, Token, Decoded, create_jwt}
use abstruse.Auth.Middleware.{passed, admit}
use abstruse.Auth.Middleware.Roundtrip.{bearer}
use abstruse.Store.Builds.{trigger_build}
use abstruse.Store.Jobs
use abstruse.Store.Jobs.{JobTable}
use abstruse.Store.Users.{login, check_password_hash}
use abstruse.Scheduler.State.{lookup}
use abstruse.Api.Answer.{form, success}
use abstruse.Api.Accounts.{LoginForm, claims_of, handle_login}
use abstruse.Api.Accounts.Entered.{handle_login-admits}
use abstruse.Api.Logs.{handle_log}
use abstruse.Api.Logs.Shown.{IsLog, found_for, handle_log-IsLog}
use abstruse.Api.Builds.{TriggerForm, trigger_opts, handle_trigger}
use abstruse.Api.Router.{serve, picked, reached, nobody}
use abstruse.Api.Router.Guarded.{Due, serve-Due}
use abstruse.Pipeline.Manual.{seen, triggered, calls, handle_trigger-triggered}
use abstruse.Tests.Accounts.{one_user, admin}
use abstruse.Tests.Chain.{empty-Inv}
use abstruse.Tests.Data.{build, job, scheduler, services, red}
use abstruse.Tests.Storing.{go_scm, engines, tables}

abbrev reading : ℕ → Reading
reading n = record {
  usage = record { cpu = n; mem = 1; timestamp = n };
  scheduler = record { queued = n; pending = 0; workers = 1; max = 2; running = 0 };
}

run-Oldest_example :
    let kept = get_history (run new_service (reading 1 ∷ reading 2 ∷ reading 3 ∷ [])) in
    (kept.0 ≡ (reading 1).usage ∷ newest (map (λ r. r.usage) (reading 2 ∷ reading 3 ∷ [])))
    × (kept.1
        ≡ (reading 1).scheduler ∷ newest (map (λ r. r.scheduler) (reading 2 ∷ reading 3 ∷ [])))
    × (length kept.0 ≤ 120)
    × (length kept.1 ≤ 120)
run-Oldest_example = run-Oldest (reading 1) (reading 2 ∷ reading 3 ∷ [])

abbrev parse : String → Result Token
parse token =
    ok (record { method = "HS256"; valid = true; claims = some (create_map (claims_of admin) 9) })

-- One job of any id; a user has no permissions.
abbrev jobs : JobTable (List Job)
jobs = record {
  by_id = λ id rows. ok (job id "passing" none none);
  between = λ from to rows. ok rows;
  insert = λ j rows. (ok tt, j ∷ rows);
  updates = λ j rows. (ok tt, rows);
  remove = λ j rows. (ok tt, []);
  permissions = λ id user rows. record { read = false; write = false; exec = false };
  bytes = λ log. [];
  text = λ bytes. "";
}

-- A log as it is.
abbrev plain : String → String
plain log = log

handle_log-IsLog_example :
    (handle_log (found_for jobs plain) plain parse "t0ken" (ok 5) (scheduler [] [])
      ≡ (success "", scheduler [] []))
    ↔ IsLog jobs plain parse "t0ken" (ok 5) (scheduler [] []) ""
handle_log-IsLog_example = handle_log-IsLog jobs plain parse "t0ken" (ok 5) (scheduler [] []) ""

-- A user without permissions reads the log.
log_of_other :
    handle_log (found_for jobs plain) plain parse "t0ken" (ok 5) (scheduler [] [])
    ≡ (success "", scheduler [] [])
unfolding handle_log create_map lookup Jobs.find_user Jobs.find
log_of_other = refl

abbrev trigger_form : TriggerForm
trigger_form = record { id = 7; config = "image: golang"; sha = "c0ffee"; branch = "master" }

handle_trigger-triggered_example :
    seen (
      handle_trigger
        (calls
          (λ id rows. ok build)
          (λ id user rows. record { read = true; write = true; exec = true })
          services
          red
          engines
          go_scm
          tables
          4
          true)
        1
        (form trigger_form)
        (scheduler [] []))
    ≡ triggered (trigger_build engines go_scm tables (trigger_opts trigger_form 1) []).0 []
handle_trigger-triggered_example =
    handle_trigger-triggered (λ id rows. ok build)
      (λ id user rows. record { read = true; write = true; exec = true }) services red engines
      go_scm tables 4 true 1 trigger_form (scheduler [] []) empty-Inv

abbrev sign : MapClaims → String
sign claims = "t0ken"

abbrev decode : String → Decoded
decode s = (
  some (record { method = "HS256"; valid = true; claims = some (create_map (claims_of admin) 9) }),
  none,
)

abbrev login_form : LoginForm
login_form = record { email = "a@b"; password = "old" }

logged_in :
    handle_login one_user (λ c. ok (create_jwt sign c 9)) (ok login_form) admin
    ≡ (success "t0ken", admin)
unfolding handle_login create_jwt login check_password_hash
logged_in = refl

long : 0 < len "t0ken"
long = omega arith

handle_login-admits_example : admit "HS256" decode (bearer "t0ken") ≡ passed (claims_of admin)
handle_login-admits_example =
    handle_login-admits one_user sign "HS256" decode 9 login_form admin "t0ken" logged_in long (
      record { method = "HS256"; valid = true; claims = some (create_map (claims_of admin) 9) },
      refl,
      refl,
      refl,
      refl,
    )

-- A request without a token for the list of the workers.
abbrev stranger : Request
stranger = record { query = ""; authorization = ""; cookie = none }

workers_listed : serve "HS256" decode true (picked 3) stranger ≡ reached "worker.HandleList" nobody
unfolding serve
workers_listed = refl

serve-Due_example : Due "HS256" decode true stranger "worker.HandleList" nobody
serve-Due_example =
    serve-Due "HS256" decode true stranger (picked 3) "worker.HandleList" nobody workers_listed
