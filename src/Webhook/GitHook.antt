-- ===== src/Webhook/GitHook.antt =====
-- server/service/githook/parser.go: what the parser makes of a payload. Of go-scm, `trim_ref` stands
-- for scm.TrimRef and `action_string` for the method String of an action; `path.Base` is below.

pub mod Accepted
pub mod Ignored
use abstruse.Prelude.{
  ℕ, Char, String, Bool, true, false, List, [], ◌∷◌, Option, none, some, cat, split, trim_prefix,
  starts_with, str_eq, if◌then◌else◌,
}
use abstruse.Core.{GitHook, Repository}
use abstruse.Core
use abstruse.Webhook.Scm.{
  Action, create, open_pr, sync, Driver, github, gitea, gitlab, stash, PushHook, TagHook,
  PullRequestHook, BranchHook, Payload, push, tag, pull_request, branch, other_payload,
}
use abstruse.Webhook.Scm
use abstruse.Webhook.Events.{
  action_close, action_create, action_delete, empty_commit, event_pull_request, event_push,
  event_tag, is_create, is_open_or_sync, is_stash, path_base, sends_push_too,
}

-- The hook and the repository, or nothing where the payload is ignored. The repository of the answer
-- is only asked for its UID, so that is what stands here, with the names that go with it.
pub record HookRepo : Type 0 where
  pub uid : String
  pub namespace : String
  pub name : String
  pub full_name : String
  pub url : String
  pub private : Bool
  pub clone : String
  pub clone_ssh : String

abbrev pub Accepts : Type 0
Accepts = Option (GitHook × HookRepo)

-- repo := &core.Repository{…}
unfoldable pub hook_repo : Scm.Repo → HookRepo
hook_repo r = record {
  uid = r.id;
  namespace = r.namespace;
  name = r.name;
  full_name = cat r.namespace (cat "/" r.name);
  url = r.link;
  private = r.private;
  clone = r.clone;
  clone_ssh = r.clone_ssh;
}

-- if githook.AuthorAvatar == "" { githook.AuthorAvatar = h.Sender.Avatar }
abbrev pub with_avatar : String → String → String
with_avatar avatar sender = if str_eq avatar "" then sender else avatar

-- if !strings.HasPrefix(githook.Ref, "refs/tags/") { githook.Ref = "refs/tags/" + githook.Ref }
unfoldable pub tag_ref : String → String
tag_ref ref = if starts_with ref "refs/tags/" then ref else cat "refs/tags/" ref

unfoldable pub pushed_branch : PushHook → GitHook
pushed_branch h = record {
  event = event_push;
  action = "";
  link = h.commit.link;
  timestamp = some h.commit.date;
  title = "";
  message = h.commit.message;
  before = h.before;
  after = h.commit.sha;
  ref = h.ref;
  fork = "";
  source = trim_prefix h.ref "refs/heads/";
  target = trim_prefix h.ref "refs/heads/";
  pr_number = 0;
  pr_title = "";
  pr_body = "";
  author_email = h.commit.author.email;
  author_avatar = with_avatar h.commit.author.avatar h.sender.avatar;
  author_name = h.commit.author.name;
  author_login = h.commit.author.login;
  sender_email = h.sender.email;
  sender_name = h.sender.name;
  sender_avatar = h.sender.avatar;
  sender_login = h.sender.login;
}

-- A hook that the sender is the author of, as tag and branch hooks are.
abbrev pub sent_hook : String → String → String → String → String → Scm.User → GitHook
sent_hook event action message after ref sender = record {
  event = event;
  action = action;
  link = "";
  timestamp = none;
  title = "";
  message = message;
  before = "";
  after = after;
  ref = ref;
  fork = "";
  source = ref;
  target = ref;
  pr_number = 0;
  pr_title = "";
  pr_body = "";
  author_email = sender.email;
  author_avatar = sender.avatar;
  author_name = sender.name;
  author_login = sender.login;
  sender_email = sender.email;
  sender_name = sender.name;
  sender_avatar = sender.avatar;
  sender_login = sender.login;
}

unfoldable pub parse_tag_hook : Driver → TagHook → Accepts
unfolding path_base
parse_tag_hook driver h =
    if is_create h.action
    then (if sends_push_too driver
        then none
        else some (
          record (sent_hook event_tag action_create (path_base h.ref.path) h.ref.sha h.ref.name
              h.sender) { ref = tag_ref h.ref.name },
          hook_repo h.repo,
        ))
    else none

unfoldable pub parse_branch_hook : Driver → BranchHook → Accepts
parse_branch_hook driver h =
    if is_create h.action
    then (if is_stash driver
        then some (sent_hook event_push "" "" h.ref.sha h.ref.name h.sender, hook_repo h.repo)
        else none)
    else none

module _ (trim_ref : String → String) where
  unfoldable pub pushed_tag : PushHook → GitHook
  pushed_tag h = record (pushed_branch h) {
    event = event_tag;
    action = action_create;
    after = h.after;
    source = trim_ref h.base_ref;
    target = trim_ref h.base_ref;
  }

  unfoldable pub parse_push_hook : PushHook → Accepts
  parse_push_hook h =
      if str_eq h.commit.sha empty_commit
      then none
      else some (
        (if starts_with h.ref "refs/tags/" then pushed_tag h else pushed_branch h),
        hook_repo h.repo,
      )

module _ (action_string : Action → String) where
  unfoldable pub parse_pr_hook : PullRequestHook → Accepts
  parse_pr_hook h =
      if is_open_or_sync h.action
      then some (
        record {
          event = event_pull_request;
          action = action_string h.action;
          link = pr.link;
          timestamp = some pr.created;
          title = pr.title;
          message = pr.body;
          before = pr.base.sha;
          after = pr.sha;
          ref = pr.ref;
          fork = pr.fork;
          source = pr.source;
          target = pr.target;
          pr_number = pr.number;
          pr_title = pr.title;
          pr_body = pr.body;
          author_email = pr.author.email;
          author_avatar = pr.author.avatar;
          author_name = pr.author.name;
          author_login = pr.author.login;
          sender_email = h.sender.email;
          sender_name = h.sender.name;
          sender_avatar = h.sender.avatar;
          sender_login = h.sender.login;
        },
        hook_repo h.repo,
      )
      else none
    where
      open h use {pull_request as pr}

-- The switch of `Parse` on the payload.
unfoldable pub parse_payload : (String → String) → (Action → String) → Driver → Payload → Accepts
unfolding parse_push_hook parse_tag_hook parse_pr_hook parse_branch_hook
parse_payload trim_ref action_string driver (push h) = parse_push_hook trim_ref h
parse_payload trim_ref action_string driver (tag h) = parse_tag_hook driver h
parse_payload trim_ref action_string driver (pull_request h) = parse_pr_hook action_string h
parse_payload trim_ref action_string driver (branch h) = parse_branch_hook driver h
parse_payload trim_ref action_string driver other_payload = none
