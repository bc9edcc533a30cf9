-- ===== src/Pipeline.antt =====
-- internal/pipeline: the change feed, one prefix's handles, the options of the store, the tenants
-- of a simulation, and verification.
pub mod Changefeed
pub mod Db
pub mod Verify
pub mod Store
pub mod Tenant
