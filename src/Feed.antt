-- ===== src/Feed.antt =====
-- The feed of new videos: src/services/feed_cache.rs and src/services/feed_refresher.rs.
pub mod Sources
pub mod Items
pub mod Unique
pub mod Due
pub mod Claim
pub mod Kept
pub mod Relative
pub mod Config
pub mod Settings
pub mod Tunables
pub mod Poll
pub mod Settled
pub mod Caps
pub mod Child
pub mod Shown
