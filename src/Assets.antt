-- ===== src/Assets.antt =====
-- app/modules/assets/service.py.
pub mod Values
pub mod Service
pub mod Distinct
pub mod Stored
pub mod Links
pub mod Cascade
mod Samples
