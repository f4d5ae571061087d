-- ===== src/Security.antt =====
-- app/core/security.py: roles, access tokens, and the revocation of tokens in Redis.
pub mod Roles
pub mod Tokens
pub mod Redis
pub mod Denials
pub mod Revocation
mod Samples
