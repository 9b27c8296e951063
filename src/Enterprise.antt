-- ===== src/Enterprise.antt =====
-- enterprise/: what a role may do, how often a principal may ask, API keys, and the audit trail.
pub mod Rbac
pub mod RateLimit
pub mod ApiKeys
pub mod Audit
mod Tests
