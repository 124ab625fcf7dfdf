-- ===== src/Tests.antt =====
-- The theorems at concrete inputs.
pub mod Backfill
pub mod Ranges
pub mod Accounts
pub mod Links
pub mod Caches
pub mod Evictions
pub mod Machines
pub mod Requests
pub mod Feed
pub mod Dash
