-- ===== src/Types/Accounts.antt =====
-- web/src/lib/types.ts: accounts: sign-in, users and their roles.
-- A field that may be null is an `Option`; one that may be left out (`?`) is an `Option` around
-- the rest of its type. Counts and numeric ids are natural numbers.
use tbd_dev.Prelude.{ℕ, String, Option, List}

pub data Role : Type 0 where
  jas_developer jas_staff jas_faculty : Role

pub record LoginRequest : Type 0 where
  pub username : String
  pub password : String

pub record TokenResponse : Type 0 where
  pub access_token : String
  pub token_type : String
  pub expires_in : ℕ

pub record UserInfo : Type 0 where
  pub id : String
  pub username : String
  pub display_name : String
  pub email : String
  pub role : Role
  pub github_username : Option String
  pub created_at : String

pub record UserSearchResult : Type 0 where
  pub id : String
  pub username : String
  pub display_name : String
  pub email : String

pub record UserSearchResponse : Type 0 where
  pub items : List UserSearchResult
  pub total : ℕ

pub record AdminUser : Type 0 where
  pub id : String
  pub username : String
  pub display_name : String
  pub email : String
  pub role : String
  pub github_username : Option String
  pub project_count : ℕ
  pub created_at : String

pub record AdminUserListResponse : Type 0 where
  pub items : List AdminUser
  pub total : ℕ

pub record UserRoleUpdate : Type 0 where
  pub role : Role
