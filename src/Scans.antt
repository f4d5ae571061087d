-- ===== src/Scans.antt =====
-- The scans of app/modules/scans: status map, conditional UPDATEs, configuration and service.
pub mod Status
pub mod State
pub mod Config
pub mod Service
pub mod Authoring
pub mod Tenancy
pub mod Samples
mod ServiceSamples
