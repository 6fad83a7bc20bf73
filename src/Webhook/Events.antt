-- ===== src/Webhook/Events.antt =====
-- The constants of core/githook.go and the tests that server/service/githook/parser.go writes on an
-- action and on the driver.
use abstruse.Prelude.{String, Bool, true, false, List, [], ◌∷◌, split, str_eq, if◌then◌else◌}
use abstruse.Webhook.Scm.{Action, create, open_pr, sync, Driver, github, gitea, gitlab, stash}

abbrev pub event_push : String
event_push = "push"

abbrev pub event_pull_request : String
event_pull_request = "pull_request"

abbrev pub event_tag : String
event_tag = "tag"

abbrev pub action_create : String
action_create = "create"

abbrev pub action_delete : String
action_delete = "delete"

abbrev pub action_close : String
action_close = "close"

abbrev pub empty_commit : String
empty_commit = "0000000000000000000000000000000000000000"

-- The last of the parts that is not empty.
last_part : List String → String → String
last_part [] found = found
last_part (p ∷ ps) found = last_part ps (if str_eq p "" then found else p)

-- path.Base
unfoldable pub path_base : String → String
unfolding last_part
path_base p = if str_eq p "" then "." else last_part (split p "/") "/"

-- The tests that the source writes on an action and on the driver.
unfoldable pub is_create : Action → Bool
is_create create = true
is_create _ = false

unfoldable pub is_open_or_sync : Action → Bool
is_open_or_sync open_pr = true
is_open_or_sync sync = true
is_open_or_sync _ = false

unfoldable pub sends_push_too : Driver → Bool
sends_push_too github = true
sends_push_too gitea = true
sends_push_too gitlab = true
sends_push_too _ = false

unfoldable pub is_stash : Driver → Bool
is_stash stash = true
is_stash _ = false
