-- ===== src/Backfill.antt =====
-- The channel backfill of src/services/channel_backfill.rs: the queue of channels with its leases,
-- what a failure does to a channel, and what a finished run writes.
pub mod Queue
pub mod Claim
pub mod Failure
pub mod Retry
pub mod Apply
pub mod Tombstones
pub mod Allowlist
pub mod Run
pub mod Lifecycle
