-- ===== src/Client/Endpoints.antt =====
-- web/src/lib/api.ts: the methods of `api`, by group. A default argument is written out by the caller.
pub mod Auth
pub mod Projects
pub mod Members
pub mod Users
pub mod Environments
pub mod Builds
pub mod Deploys
pub mod Secrets
pub mod Networks
pub mod Audit
pub mod Github
pub mod Templates
pub mod Admin
pub mod Students
pub mod Quotas
pub mod AdminUsers
pub mod NetworkPolicies
