-- ===== src/Tests/Hooks.antt =====
-- The theorems on webhooks at concrete payloads.
use abstruse.Prelude.{
  ap, String, ◌≡◌, ◌≢◌, refl, false, List, [], ◌∷◌, ◌++◌, none, some, trim_prefix, str_eq,
}
use abstruse.Core.{GitHook, Job}
use abstruse.Webhook.Scm.{Action, create, open_pr, sync, github, User, PushHook, Payload, push}
use abstruse.Webhook.GitHook.{hook_repo, pushed_branch, parse_push_hook, parse_payload}
use abstruse.Webhook.Handler.{Clients, Stores}
use abstruse.Webhook.Handler.Outcome.{Outcome}
use abstruse.Tests.Data.{repository, job}

abbrev jan : User
jan = record { login = "jan"; name = "Jan"; email = "jan@example.com"; avatar = "a.png" }

abbrev pushed : PushHook
pushed = record {
  ref = "refs/heads/master";
  base_ref = "";
  repo = record {
    id = "77";
    namespace = "bleenco";
    name = "abstruse";
    link = "";
    private = false;
    clone = "";
    clone_ssh = "";
  };
  before = "c0";
  after = "c1";
  commit = record { sha = "c1"; message = "fix"; author = jan; date = 5; link = "" };
  sender = jan;
}

abbrev action_string : Action → String
action_string create = "created"
action_string open_pr = "opened"
action_string sync = "synchronized"
action_string _ = "other"

abbrev trim_ref : String → String
trim_ref r = trim_prefix r "refs/heads/"

abbrev pub hook : GitHook
hook = pushed_branch pushed

accepts :
    parse_payload trim_ref action_string github (push pushed) ≡ some (hook, hook_repo pushed.repo)
unfolding parse_payload parse_push_hook
accepts = refl

-- Requests are payloads, and every client is one of GitHub.
abbrev pub clients : Clients Payload
clients = record {
  trim_ref = trim_ref;
  action_string = action_string;
  new_client = λ p. some github;
  parse_request = λ d p secret. (p, none);
}

-- The outside is the list of the jobs that were scheduled.
abbrev stores : Stores (List Job)
stores = record {
  repositories = λ s. some (repository ∷ []);
  find_uid = λ uid s. some repository;
  generate_build = λ r h s. (s, job 1 "queued" none none ∷ [], none);
  next = λ j s. (s ++ j ∷ [], none);
}

opened : action_string open_pr ≢ "close"
opened e = cc (ap (λ s. str_eq s "close") e)

synchronized : action_string sync ≢ "close"
synchronized e = cc (ap (λ s. str_eq s "close") e)
