-- ===== src/Gitscm.antt =====
-- pkg/gitscm/scm.go and pkg/gitscm/gitea.go. go-scm is a parameter: the record `GoScm` on a state `S`
-- of the outside, in which a call that only reads leaves the state as it is.
pub mod Laws
use abstruse.Prelude.{
  ℕ, String, Bool, true, false, not, List, [], ◌∷◌, ◌++◌, ◌||◌, map, cat, str_eq, if◌then◌else◌,
  Result, ok, err, panic, Effect, pure, raise, panics, reads, ◌>>=◌, for_each,
}
use abstruse.Webhook.Scm.{User, Reference}

-- scm.Commit
pub record Commit : Type 0 where
  pub sha : String
  pub link : String
  pub message : String
  pub author : User
  pub committer : User

-- The structs `user`, `commitInfo` and the parts of `commit` that are read.
pub record GiteaUser : Type 0 where
  pub login : String
  pub username : String
  pub fullname : String
  pub email : String
  pub avatar : String

pub record CommitInfo : Type 0 where
  pub sha : String
  pub commit_url : String
  pub tree_sha : String
  pub message : String
  pub author : GiteaUser
  pub committer : GiteaUser

-- scm.ContentInfo, and whether its kind is a file
pub record ContentInfo : Type 0 where
  pub path : String
  pub is_file : Bool

-- pkg/gitscm/types.go
pub record HookForm : Type 0 where
  pub branch : Bool
  pub push : Bool
  pub pull_request : Bool
  pub tag : Bool

pub record Hook : Type 0 where
  pub id : String
  pub target : String

-- scm.HookInput: gitea reads the native events, the others the form's flags.
pub record HookInput : Type 0 where
  pub name : String
  pub target : String
  pub secret : String
  pub skip_verify : Bool
  pub native_events : List String
  pub events : HookForm

pub data State : Type 0 where
  unknown pending running success failure canceled error : State

pub record StatusInput : Type 0 where
  pub state : State
  pub label : String
  pub desc : String
  pub target : String

pub data Kind : Type 0 where
  github bitbucket gitea gitlab gogs : Kind

-- The struct SCM; the client is made of the other fields.
pub record Scm : Type 0 where
  pub kind : Kind
  pub provider : String
  pub url : String
  pub token : String

pub record GoScm (S : Type 0) : Type 0 where
  pub accepts : Kind → String → Bool
  pub list_commits : Scm → String → String → S → Result (List Commit)
  pub request_commits : Scm → String → S → Result (List CommitInfo)
  pub find_commit : Scm → String → String → S → Result Commit
  pub find_branch : Scm → String → String → S → Result Reference
  pub find_content : Scm → String → String → String → S → Result String
  pub list_content : Scm → String → String → String → S → Result (List ContentInfo)
  pub list_hooks : Scm → String → S → Result (List Hook)
  pub create_hook : Scm → String → HookInput → Effect S Hook
  pub delete_hook : Scm → String → String → Effect S (Unit {0})
  pub create_status : Scm → String → String → StatusInput → Effect S (Unit {0})
  pub is_pull_request : String → Bool
  pub is_tag : String → Bool
  pub is_branch : String → Bool

unfoldable pub user_login : GiteaUser → String
user_login u = if not (str_eq u.username "") then u.username else u.login

unfoldable pub convert_user_signature : GiteaUser → User
unfolding user_login
convert_user_signature u = record {
  login = user_login u;
  name = u.fullname;
  email = u.email;
  avatar = u.avatar;
}

unfoldable pub convert_commit_info : CommitInfo → Commit
unfolding convert_user_signature
convert_commit_info c = record {
  sha = c.tree_sha;
  link = c.commit_url;
  message = c.message;
  author = convert_user_signature c.author;
  committer = convert_user_signature c.committer;
}

-- `if c { xs = append(xs, …) }`
abbrev pub when : Bool → List String → List String
when c xs = if c then xs else []

-- The events that are asked of gitea.
unfoldable pub native_events : HookForm → List String
native_events f =
    when (f.branch || f.tag) ("create" ∷ [])
    ++ (when f.pull_request ("pull_request" ∷ []) ++ when f.push ("push" ∷ []))

abbrev no_events : HookForm
no_events = record { branch = false; push = false; pull_request = false; tag = false }

unfoldable pub hook_input : String → String → String → HookForm → HookInput
unfolding native_events
hook_input target secret provider f =
    let is_gitea = str_eq provider "gitea" in
    record {
      name = "Abstruse CI";
      target = target;
      secret = secret;
      skip_verify = false;
      native_events = if is_gitea then native_events f else [];
      events = if is_gitea then no_events else f;
    }

unfoldable pub status_message : State → String
status_message unknown = ""
status_message pending = "Abstruse CI build is running."
status_message running = "Abstruse CI build running."
status_message success = "Abstruse CI build successful."
status_message failure = "Abstruse CI build failed."
status_message canceled = "Abstruse CI build cancelled."
status_message error = "Abstruse CI build errored."

module _ {S : Type 0} (go_scm : GoScm S) where
  -- The assignment to `scm.client.Client` comes before the return of the error: where the driver gives
  -- no client it is an assignment through a nil pointer.
  abbrev pub connect : Kind → String → String → String → Effect S Scm
  connect kind provider url token =
      if go_scm.accepts kind url
      then pure (record { kind = kind; provider = provider; url = url; token = token })
      else panics

  unfoldable pub new : String → String → String → Effect S Scm
  new provider url token =
      if str_eq provider "github"
      then connect github provider url token
      else if str_eq provider "bitbucket"
      then connect bitbucket provider url token
      else if str_eq provider "gitea"
      then connect gitea provider url token
      else if str_eq provider "gitlab"
      then connect gitlab provider url token
      else if str_eq provider "gogs"
      then connect gogs provider url token
      else raise "unknown scm provider"

  abbrev commits_path : String → String → String
  commits_path repo branch = cat "api/v1/repos/" (cat repo (cat "/commits?sha=" branch))

  unfoldable pub list_commits : Scm → String → String → Effect S (List Commit)
  list_commits scm repo branch =
      if not (str_eq scm.provider "gitea") then reads (go_scm.list_commits scm repo branch) else do
        out ← reads (go_scm.request_commits scm (commits_path repo branch))
        pure (map convert_commit_info out)

  abbrev pub first : List Commit → Effect S Commit
  first [] = raise "not found"
  first (c ∷ cs) = pure c

  unfoldable pub last_commit : Scm → String → String → Effect S Commit
  unfolding list_commits
  last_commit scm repo branch = list_commits scm repo branch >>= first

  unfoldable pub find_commit : Scm → String → String → Effect S Commit
  find_commit scm repo ref = reads (go_scm.find_commit scm repo ref)

  unfoldable pub find_branch : Scm → String → String → Effect S Reference
  find_branch scm repo name = reads (go_scm.find_branch scm repo name)

  unfoldable pub find_content : Scm → String → String → String → Effect S String
  find_content scm repo ref path = reads (go_scm.find_content scm repo ref path)

  -- The loop of `ListContent`.
  unfoldable pub contents_of : Scm → String → String → List ContentInfo → Effect S (List String)
  unfolding find_content
  contents_of scm repo ref [] = pure []
  contents_of scm repo ref (c ∷ cs) =
      let rest = contents_of scm repo ref cs in
      if c.is_file
      then (do x ← find_content scm repo ref c.path; xs ← rest; pure (x ∷ xs))
      else rest

  unfoldable pub list_content : Scm → String → String → String → Effect S (List String)
  unfolding contents_of
  list_content scm repo ref path = do
    contents ← reads (go_scm.list_content scm repo ref path)
    contents_of scm repo ref contents

  unfoldable pub ref_type : String → String
  ref_type ref =
      if go_scm.is_pull_request ref
      then "pr"
      else if go_scm.is_tag ref
      then "tag"
      else if go_scm.is_branch ref
      then "branch"
      else "unknown"

  unfoldable pub list_hooks : Scm → String → Effect S (List Hook)
  list_hooks scm repo = reads (go_scm.list_hooks scm repo)

  unfoldable pub create_hook : Scm → String → String → String → String → HookForm → Effect S Hook
  unfolding hook_input
  create_hook scm repo target secret provider f =
      go_scm.create_hook scm repo (hook_input target secret provider f)

  unfoldable pub delete_hook : Scm → String → String → Effect S (Unit {0})
  delete_hook scm repo id = go_scm.delete_hook scm repo id

  unfoldable pub create_status : Scm → String → String → String → State → Effect S (Unit {0})
  unfolding status_message
  create_status scm repo sha url state = go_scm.create_status scm repo sha (record {
    state = state;
    label = "continuous-integration";
    desc = status_message state;
    target = url;
  })
