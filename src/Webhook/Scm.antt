-- ===== src/Webhook/Scm.antt =====
-- What server/service/githook/parser.go reads of the payloads of go-scm: the fields that it selects.
-- The values of scm.Action and scm.Driver that it does not name are `other`.
use abstruse.Prelude.{ℕ, String, Bool}

pub data Action : Type 0 where
  create delete open_pr close sync : Action
  other_action : ℕ → Action

pub data Driver : Type 0 where
  github gitea gitlab stash : Driver
  other_driver : ℕ → Driver

pub record User : Type 0 where
  pub login : String
  pub name : String
  pub email : String
  pub avatar : String

pub record Commit : Type 0 where
  pub sha : String
  pub message : String
  pub author : User
  pub date : ℕ
  pub link : String

pub record Reference : Type 0 where
  pub name : String
  pub path : String
  pub sha : String

pub record Repo : Type 0 where
  pub id : String
  pub namespace : String
  pub name : String
  pub link : String
  pub private : Bool
  pub clone : String
  pub clone_ssh : String

pub record PushHook : Type 0 where
  pub ref : String
  pub base_ref : String
  pub repo : Repo
  pub before : String
  pub after : String
  pub commit : Commit
  pub sender : User

pub record TagHook : Type 0 where
  pub ref : Reference
  pub repo : Repo
  pub action : Action
  pub sender : User

pub record PullRequest : Type 0 where
  pub number : ℕ
  pub title : String
  pub body : String
  pub sha : String
  pub ref : String
  pub source : String
  pub target : String
  pub fork : String
  pub link : String
  pub base : Reference
  pub author : User
  pub created : ℕ

pub record PullRequestHook : Type 0 where
  pub action : Action
  pub repo : Repo
  pub pull_request : PullRequest
  pub sender : User

pub record BranchHook : Type 0 where
  pub ref : Reference
  pub repo : Repo
  pub action : Action
  pub sender : User

-- The cases of the switch on the payload's type.
pub data Payload : Type 0 where
  push : PushHook → Payload
  tag : TagHook → Payload
  pull_request : PullRequestHook → Payload
  branch : BranchHook → Payload
  other_payload : Payload
