-- ===== src/Types.antt =====
-- web/src/lib/types.ts: the data that the API and the pages exchange, one record for each interface.
pub mod Accounts
pub mod Projects
pub mod Deploys
pub mod Platform
pub mod Reports
