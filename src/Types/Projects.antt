-- ===== src/Types/Projects.antt =====
-- web/src/lib/types.ts: projects, members, environments, secrets, repositories and templates.
-- A field that may be null is an `Option`; one that may be left out (`?`) is an `Option` around
-- the rest of its type. Counts and numeric ids are natural numbers.
use tbd_dev.Prelude.{ℕ, String, Bool, Option, List}

pub data EnvType : Type 0 where
  production staging preview : EnvType

pub data SecretScope : Type 0 where
  project production staging preview : SecretScope

pub record Repo : Type 0 where
  pub id : String
  pub provider : String
  pub repo_id : String
  pub repo_full_name : Option String
  pub default_branch : String
  pub install_id : Option String

pub record Project : Type 0 where
  pub id : String
  pub name : String
  pub slug : String
  pub repo_url : Option String
  pub owner_id : String
  pub default_env : String
  pub auto_deploy : Bool
  pub framework : Option String
  pub root_directory : Option String
  pub build_command : Option String
  pub install_command : Option String
  pub output_directory : Option String
  pub health_check_path : Option String
  pub health_check_timeout : Option ℕ
  pub webhook_url : Option String
  pub deploy_locked : Bool
  pub expires_at : Option String
  pub production_url : Option String
  pub custom_subdomain : Option String
  pub repo : Option Repo
  pub created_at : String

pub record ProjectCreate : Type 0 where
  pub name : String
  pub slug : String
  pub repo_url : Option (Option String)
  pub default_env : Option String
  pub custom_subdomain : Option (Option String)

pub record ProjectUpdate : Type 0 where
  pub name : Option (Option String)
  pub repo_url : Option (Option String)
  pub default_env : Option (Option String)
  pub auto_deploy : Option (Option Bool)
  pub framework : Option (Option String)
  pub root_directory : Option (Option String)
  pub build_command : Option (Option String)
  pub install_command : Option (Option String)
  pub output_directory : Option (Option String)
  pub health_check_path : Option (Option String)
  pub health_check_timeout : Option (Option ℕ)
  pub webhook_url : Option (Option String)
  pub deploy_locked : Option (Option Bool)
  pub expires_at : Option (Option String)
  pub custom_subdomain : Option (Option String)

pub record ProjectListResponse : Type 0 where
  pub items : List Project
  pub total : ℕ

pub record ProjectMember : Type 0 where
  pub id : String
  pub project_id : String
  pub user_id : String
  pub role : String
  pub username : String
  pub display_name : String
  pub email : String
  pub created_at : String

pub record ProjectMemberAdd : Type 0 where
  pub user_id : String
  pub role : Option String

pub record ProjectMemberListResponse : Type 0 where
  pub items : List ProjectMember
  pub total : ℕ

pub record Environment : Type 0 where
  pub id : String
  pub project_id : String
  pub name : String
  pub type : EnvType
  pub vlan_id : Option String
  pub created_at : String

pub record EnvironmentCreate : Type 0 where
  pub name : String
  pub type : EnvType

pub record EnvironmentListResponse : Type 0 where
  pub items : List Environment
  pub total : ℕ

pub record Secret : Type 0 where
  pub id : String
  pub project_id : String
  pub scope : SecretScope
  pub key : String
  pub created_at : String

pub record SecretCreate : Type 0 where
  pub key : String
  pub value : String
  pub scope : Option SecretScope

pub record SecretListResponse : Type 0 where
  pub items : List Secret
  pub total : ℕ

pub record GitHubRepo : Type 0 where
  pub id : ℕ
  pub full_name : String
  pub name : String
  pub private : Bool
  pub default_branch : String
  pub description : Option String
  pub html_url : String
  pub install_id : Option ℕ

pub record ConnectRepoRequest : Type 0 where
  pub install_id : Option (Option ℕ)
  pub repo_id : ℕ
  pub repo_full_name : String
  pub default_branch : String

pub record Template : Type 0 where
  pub id : String
  pub name : String
  pub slug : String
  pub description : String
  pub framework : String
  pub github_owner : String
  pub github_repo : String
  pub icon_url : Option String
  pub tags : List String
  pub sort_order : ℕ
  pub active : Bool
  pub created_at : String

pub record TemplateListResponse : Type 0 where
  pub items : List Template
  pub total : ℕ

pub record TemplateDeployRequest : Type 0 where
  pub repo_name : String
  pub description : Option String
  pub private : Option Bool

pub record TemplateDeployResponse : Type 0 where
  pub project_id : String
  pub project_slug : String
  pub repo_full_name : String
  pub repo_html_url : String
  pub build_id : Option String
  pub message : String
