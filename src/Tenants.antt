-- ===== src/Tenants.antt =====
-- app/modules/tenants/service.py.
pub mod Slug
pub mod Service
pub mod Search
pub mod Deactivation
pub mod Limits
mod Samples
