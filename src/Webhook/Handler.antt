-- ===== src/Webhook/Handler.antt =====
-- `Parse` of server/service/githook/parser.go and `HandleHook` of server/api/webhook/hook.go. The
-- stores, the SCM clients and the scheduler are parameters on a state `S` of the outside. The
-- broadcast of a new build is left out.
pub mod Outcome
use abstruse.Prelude.{
  ℕ, String, Bool, true, false, not, List, [], ◌∷◌, ◌&&◌, Option, none, some, cat, str_eq,
  if◌then◌else◌,
}
use abstruse.Core.{Repository, Provider, GitHook, Job}
use abstruse.Webhook.Scm.{Action, Driver, Payload}
use abstruse.Webhook.GitHook.{HookRepo, Accepts, parse_payload}
use abstruse.Webhook.Events.{event_push, event_pull_request, action_delete, action_close}

-- scm.ErrUnknownEvent, and every other error by its text
pub data ParseError : Type 0 where
  unknown_event : ParseError
  other_error : String → ParseError

-- The namespace and the name of a webhook's repository; nothing where the webhook is nil.
abbrev pub Named : Type 0
Named = Option (String × String)

-- The closure `fn` of `Parse`: the secret that go-scm checks the request with.
unfoldable pub secret_of : (String → Option Repository) → Named → String × Option ParseError
secret_of secret_func none = ("", some unknown_event)
secret_of secret_func (some (namespace, name)) = elim (secret_func (cat namespace (cat "/" name))) [
  | none ↦ ("", some (other_error "cannot find repository"))
  | some r ↦
      if str_eq r.provider.secret ""
      then ("", some (other_error "cannot find repository"))
      else (r.provider.secret, none)
]

-- The closure `fn` of `HandleHook`.
unfoldable pub find_repo : List Repository → String → Option Repository
find_repo [] fullname = none
find_repo (r ∷ rs) fullname =
    let rest = find_repo rs fullname in if str_eq r.full_name fullname then some r else rest

-- `parse_request` is client.Webhooks.Parse of go-scm, for the driver of the client.
pub record Clients (R : Type 0) : Type 0 where
  pub trim_ref : String → String
  pub action_string : Action → String
  pub new_client : Provider → Option Driver
  pub parse_request :
      Driver → R → (Named → String × Option ParseError) → Payload × Option ParseError

pub record Stores (S : Type 0) : Type 0 where
  pub repositories : S → Option (List Repository)
  pub find_uid : String → S → Option Repository
  pub generate_build : Repository → GitHook → S → S × List Job × Option String
  pub next : Job → S → S × Option String

pub data Response : Type 0 where
  ok : Response
  server_error : String → Response

module _ {R S : Type 0} (clients : Clients R) (stores : Stores S) where
  abbrev pub parsed : Driver → Payload × Option ParseError → Accepts × Option String
  parsed driver (p, some unknown_event) = (none, none)
  parsed driver (p, some (other_error e)) = (none, some e)
  parsed driver (p, none) = (parse_payload clients.trim_ref clients.action_string driver p, none)

  unfoldable pub parse : Driver → R → (String → Option Repository) → Accepts × Option String
  parse driver req secret_func =
      parsed driver (clients.parse_request driver req (secret_of secret_func))

  abbrev and_next : S × Option String → (S → S × Response) → S × Response
  and_next (s, some e) rest = (s, server_error e)
  and_next (s, none) rest = rest s

  -- for _, job := range jobs { if err := scheduler.Next(job); err != nil { … return } }
  unfoldable pub schedule : List Job → S → S × Response
  schedule [] s = (s, ok)
  schedule (j ∷ js) s = and_next (stores.next j s) (schedule js)

  abbrev pub generated : S × List Job × Option String → S × Response
  generated (s, jobs, some e) = (s, server_error e)
  generated (s, jobs, none) = schedule jobs s

  -- The build is generated and its jobs are handed to the scheduler.
  unfoldable pub trigger : Repository → GitHook → S → S × Response
  unfolding schedule
  trigger repo hook s = generated (stores.generate_build repo hook s)

  -- From the repository of the hook on; `rest` goes on with the next repository.
  unfoldable pub found : Option Repository → GitHook → S × Response → S → S × Response
  found none hook rest s = rest
  found (some repo) hook rest s =
      if not repo.active
      then (s, ok)
      else if str_eq hook.event event_push && str_eq hook.action action_delete
      then (s, ok)
      else if str_eq hook.event event_pull_request && str_eq hook.action action_close
      then (s, ok)
      else trigger repo hook s

  unfoldable pub accepted : Accepts × Option String → S × Response → S → S × Response
  accepted (h, some e) rest s = rest
  accepted (none, none) rest s = (s, ok)
  accepted (some (hook, hrepo), none) rest s = found (stores.find_uid hrepo.uid s) hook rest s

  -- One repository: gitscm.New for its provider, and the request for that client.
  abbrev pub attempt :
      Option Driver → R → (String → Option Repository) → S × Response → S → S × Response
  attempt none req fn rest s = rest
  attempt (some driver) req fn rest s = accepted (parse driver req fn) rest s

  -- The loop over the repositories.
  unfoldable pub try_each : R → (String → Option Repository) → List Repository → S → S × Response
  unfolding accepted found
  try_each req fn [] s = (s, ok)
  try_each req fn (r ∷ rs) s =
      attempt (clients.new_client r.provider) req fn (try_each req fn rs s) s

  abbrev pub listed : Option (List Repository) → R → S → S × Response
  listed none req s = (s, server_error "no repositories found")
  listed (some repositories) req s = try_each req (find_repo repositories) repositories s

  unfoldable pub handle_hook : R → S → S × Response
  handle_hook req s = listed (stores.repositories s) req s
