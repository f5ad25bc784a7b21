-- ===== src/Types/Platform.antt =====
-- web/src/lib/types.ts: VLANs, audit, quotas and network policies.
-- A field that may be null is an `Option`; one that may be left out (`?`) is an `Option` around
-- the rest of its type. Counts and numeric ids are natural numbers.
use tbd_dev.Prelude.{ℕ, String, Bool, Option, List}

pub data Direction : Type 0 where
  egress ingress : Direction

pub data Protocol : Type 0 where
  tcp udp icmp any : Protocol

pub data PolicyAction : Type 0 where
  allow deny : PolicyAction

pub record Vlan : Type 0 where
  pub id : String
  pub vlan_tag : ℕ
  pub subnet_cidr : String
  pub reserved_by_project_id : Option String

pub record VlanListResponse : Type 0 where
  pub items : List Vlan
  pub total : ℕ

pub record AuditLogEntry : Type 0 where
  pub id : String
  pub actor_user_id : Option String
  pub action : String
  pub target_type : String
  pub target_id : String
  pub payload : Option String
  pub created_at : String

pub record AuditLogListResponse : Type 0 where
  pub items : List AuditLogEntry
  pub total : ℕ

pub record Quota : Type 0 where
  pub id : String
  pub project_id : String
  pub cpu_limit : ℕ
  pub ram_limit : ℕ
  pub disk_limit : ℕ

pub record QuotaWithProject : Type 0 where
  pub id : String
  pub project_id : String
  pub project_name : String
  pub project_slug : String
  pub owner_username : String
  pub cpu_limit : ℕ
  pub ram_limit : ℕ
  pub disk_limit : ℕ

pub record QuotaUpdate : Type 0 where
  pub cpu_limit : Option ℕ
  pub ram_limit : Option ℕ
  pub disk_limit : Option ℕ

pub record QuotaListResponse : Type 0 where
  pub items : List QuotaWithProject
  pub total : ℕ

pub record NetworkPolicy : Type 0 where
  pub id : String
  pub project_id : String
  pub project_name : Option String
  pub name : String
  pub direction : Direction
  pub protocol : Protocol
  pub port : Option ℕ
  pub destination : String
  pub action : PolicyAction
  pub enabled : Bool
  pub created_at : String

pub record NetworkPolicyCreate : Type 0 where
  pub project_id : String
  pub name : String
  pub direction : Option Direction
  pub protocol : Option Protocol
  pub port : Option (Option ℕ)
  pub destination : String
  pub action : Option PolicyAction

pub record NetworkPolicyUpdate : Type 0 where
  pub name : Option String
  pub protocol : Option Protocol
  pub port : Option (Option ℕ)
  pub destination : Option String
  pub action : Option PolicyAction
  pub enabled : Option Bool

pub record NetworkPolicyListResponse : Type 0 where
  pub items : List NetworkPolicy
  pub total : ℕ
