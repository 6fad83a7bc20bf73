-- ===== src/Pb.antt =====
-- The messages of pb/api.proto between the server and its workers.
use abstruse.Prelude.{ℕ, String, Bool, List}

pub data CommandType : Type 0 where
  before_install install before_script script after_success after_failure : CommandType
  before_deploy deploy after_deploy after_script : CommandType

pub record Command : Type 0 where
  pub type : CommandType
  pub command : String

pub record EnvVariable : Type 0 where
  pub key : String
  pub value : String
  pub secret : Bool

pub data JobStatus : Type 0 where
  unknown queued running passing failing : JobStatus

pub data JobRespType : Type 0 where
  log done cache : JobRespType

pub record JobResp : Type 0 where
  pub id : ℕ
  pub content : String
  pub status : JobStatus
  pub type : JobRespType

-- message Job, as far as the server fills it in
pub record Job : Type 0 where
  pub id : ℕ
  pub build_id : ℕ
  pub commands : List Command
  pub image : String
  pub url : String
  pub provider_name : String
  pub provider_url : String
  pub provider_token : String
  pub env : List EnvVariable
  pub ref : String
  pub commit_sha : String
  pub branch : String
  pub repo_name : String
  pub worker_id : String
  pub log : List String
  pub status : String
  pub ssh_url : String
  pub cache : List String
  pub mount : List String
  pub ssh_private_key : String
  pub ssh_clone : Bool
