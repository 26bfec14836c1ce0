-- ===== src/Profile.antt =====
-- profile/: the trust profiles, their floors, and the headless command policy.
pub mod Posture
pub mod Shell
pub mod Exec
pub mod Resolve
pub mod Policy
mod Tests
