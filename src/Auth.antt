-- ===== src/Auth.antt =====
-- app/modules/auth/service.py: refresh tokens and their rotation, login, logout and the change of a
-- password.
pub mod Tokens
pub mod Sessions
pub mod Cap
pub mod Rotation
pub mod SingleUse
pub mod Calls
pub mod Guards
mod Samples
