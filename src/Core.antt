-- ===== src/Core.antt =====
-- The database tables of server/core that the modelled code reads. Timestamps of the rows and the
-- fields that only the API shows are left out; a `*time.Time` is an `Option ℕ`, in nanoseconds.
use abstruse.Prelude.{ℕ, String, Bool, List, Option}

-- core/provider.go
pub record Provider : Type 0 where
  pub name : String
  pub url : String
  pub access_token : String
  pub secret : String
  pub host : String

-- core/env.go
pub record EnvVariable : Type 0 where
  pub key : String
  pub value : String
  pub secret : Bool

-- core/mount.go
pub record Mount : Type 0 where
  pub host : String
  pub container : String

-- core/permission.go
pub record Perms : Type 0 where
  pub read : Bool
  pub write : Bool
  pub exec : Bool

-- core/repo.go
pub record Repository : Type 0 where
  pub id : ℕ
  pub uid : String
  pub namespace : String
  pub name : String
  pub full_name : String
  pub private : Bool
  pub use_ssh : Bool
  pub url : String
  pub clone : String
  pub clone_ssh : String
  pub default_branch : String
  pub active : Bool
  pub timeout : ℕ
  pub ssh_private_key : String
  pub user_id : ℕ
  pub provider : Provider
  pub env_variables : List EnvVariable
  pub mounts : List Mount
  pub perms : Perms

-- core/build.go, without the jobs: they hang on what `BuildStore.Find` returns. A pull request's
-- number is not negative.
pub record Build : Type 0 where
  pub id : ℕ
  pub branch : String
  pub commit : String
  pub commit_message : String
  pub ref : String
  pub pr : ℕ
  pub pr_title : String
  pub config : String
  pub author_login : String
  pub author_name : String
  pub author_email : String
  pub author_avatar : String
  pub committer_login : String
  pub committer_name : String
  pub committer_email : String
  pub committer_avatar : String
  pub start_time : Option ℕ
  pub end_time : Option ℕ
  pub repository : Repository
  pub repository_id : ℕ

-- core/job.go. `build` is there because `JobStore.Find` loads it.
pub record Job : Type 0 where
  pub id : ℕ
  pub commands : String
  pub image : String
  pub env : String
  pub mount : String
  pub start_time : Option ℕ
  pub end_time : Option ℕ
  pub status : String
  pub log : String
  pub stage : String
  pub cache : String
  pub build : Build
  pub build_id : ℕ

-- core/githook.go. An absent time stamp is `none`.
pub record GitHook : Type 0 where
  pub event : String
  pub action : String
  pub link : String
  pub timestamp : Option ℕ
  pub title : String
  pub message : String
  pub before : String
  pub after : String
  pub ref : String
  pub fork : String
  pub source : String
  pub target : String
  pub pr_number : ℕ
  pub pr_title : String
  pub pr_body : String
  pub author_email : String
  pub author_avatar : String
  pub author_name : String
  pub author_login : String
  pub sender_email : String
  pub sender_name : String
  pub sender_avatar : String
  pub sender_login : String
