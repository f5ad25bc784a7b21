-- ===== src/Types/Deploys.antt =====
-- web/src/lib/types.ts: builds and deploys.
-- A field that may be null is an `Option`; one that may be left out (`?`) is an `Option` around
-- the rest of its type. Counts and numeric ids are natural numbers.
use tbd_dev.Prelude.{ℕ, String, Bool, Option, List}

pub record Build : Type 0 where
  pub id : String
  pub project_id : String
  pub commit_sha : String
  pub image_ref : Option String
  pub status : String
  pub trigger : String
  pub branch : Option String
  pub started_at : Option String
  pub finished_at : Option String

pub record BuildLogsResponse : Type 0 where
  pub build_id : String
  pub status : String
  pub logs : Option String

pub record BuildListResponse : Type 0 where
  pub items : List Build
  pub total : ℕ

pub data DeployStatus : Type 0 where
  queued building artifact_ready provisioning healthy active stopped failed rolled_back superseded :
      DeployStatus

pub record Deploy : Type 0 where
  pub id : String
  pub env_id : String
  pub artifact_id : Option String
  pub build_id : Option String
  pub commit_sha : Option String
  pub status : DeployStatus
  pub url : Option String
  pub created_at : String
  pub promoted_at : Option String
  pub is_production : Bool
  pub container_ip : Option String
  pub container_vmid : Option ℕ

pub record DeployListResponse : Type 0 where
  pub items : List Deploy
  pub total : ℕ

pub record DeployLogsResponse : Type 0 where
  pub deploy_id : String
  pub status : String
  pub logs : Option String

pub record DeployTriggerResponse : Type 0 where
  pub deploy_id : String
  pub build_id : String
  pub artifact_id : String
  pub env : String
  pub status : String
  pub url : Option String

pub record QueueStatus : Type 0 where
  pub env_id : String
  pub queued : ℕ
  pub in_progress : ℕ
  pub active : ℕ
  pub max_concurrent : ℕ
  pub max_queue_size : ℕ
