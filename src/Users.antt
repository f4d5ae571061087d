-- ===== src/Users.antt =====
-- app/modules/users/service.py and the policy of app/modules/users/router.py.
pub mod Service
pub mod Router
pub mod Rank
pub mod Escalation
mod Samples
