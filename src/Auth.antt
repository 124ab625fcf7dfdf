-- ===== src/Auth.antt =====
-- Switching between profiles: src/routes/auth.rs.
pub mod Throttle
pub mod Switch
pub mod Entry
