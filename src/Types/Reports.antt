-- ===== src/Types/Reports.antt =====
-- web/src/lib/types.ts: the administrators' figures.
-- A field that may be null is an `Option`; one that may be left out (`?`) is an `Option` around
-- the rest of its type. Counts and numeric ids are natural numbers.
use tbd_dev.Prelude.{ℕ, String, Bool, Option, List}

pub record AdminStats : Type 0 where
  pub total_users : ℕ
  pub total_projects : ℕ
  pub total_deploys : ℕ
  pub active_deploys : ℕ
  pub total_builds : ℕ
  pub vlans_allocated : ℕ
  pub vlans_available : ℕ
  pub total_network_policies : ℕ

pub record TrendPoint : Type 0 where
  pub date : String
  pub deploys : ℕ
  pub builds : ℕ
  pub failed_deploys : ℕ
  pub failed_builds : ℕ

pub record TrendResponse : Type 0 where
  pub points : List TrendPoint
  pub period_days : ℕ

pub record ActivityEvent : Type 0 where
  pub id : String
  pub type : String
  pub timestamp : String
  pub actor_name : Option String
  pub actor_username : Option String
  pub project_name : Option String
  pub project_id : Option String
  pub status : Option String
  pub detail : Option String

pub record ActivityResponse : Type 0 where
  pub items : List ActivityEvent
  pub total : ℕ

pub record AdminProjectItem : Type 0 where
  pub id : String
  pub name : String
  pub slug : String
  pub owner_id : String
  pub owner_username : String
  pub owner_display_name : String
  pub framework : Option String
  pub repo_url : Option String
  pub repo_full_name : Option String
  pub production_url : Option String
  pub deploy_locked : Bool
  pub expires_at : Option String
  pub created_at : String
  pub latest_deploy_status : Option String
  pub total_deploys : ℕ
  pub total_builds : ℕ
  pub member_count : ℕ
  pub tags : List String

pub record AdminProjectListResponse : Type 0 where
  pub items : List AdminProjectItem
  pub total : ℕ

pub record StudentSummary : Type 0 where
  pub id : String
  pub username : String
  pub display_name : String
  pub email : String
  pub role : String
  pub github_username : Option String
  pub created_at : String
  pub project_count : ℕ
  pub total_builds : ℕ
  pub total_deploys : ℕ
  pub active_deploys : ℕ
  pub last_activity : Option String

pub record StudentListResponse : Type 0 where
  pub items : List StudentSummary
  pub total : ℕ

pub record StudentDetail (Number : Type 0) : Type 0 where
  pub id : String
  pub username : String
  pub display_name : String
  pub email : String
  pub role : String
  pub github_username : Option String
  pub created_at : String
  pub projects : List AdminProjectItem
  pub total_builds : ℕ
  pub total_deploys : ℕ
  pub active_deploys : ℕ
  pub failed_deploys : ℕ
  pub success_rate : Number
  pub last_activity : Option String
