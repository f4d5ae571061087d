-- ===== src/Vulnerabilities.antt =====
-- The findings of app/modules/vulnerabilities: identity, upsert of a scan's drafts, and service.
pub mod Identity
pub mod Upsert
pub mod Loop
pub mod Once
pub mod Service
pub mod Closing
pub mod Isolation
pub mod Listing
pub mod Announcing
mod Samples
