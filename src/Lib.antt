-- ===== src/Lib.antt =====
-- A model of hometube's server in antt, with the theorems that make its core correct. Texts are
-- lists of code points, instants and times are natural numbers, and tables are lists of rows, on
-- which the statements of the source act row by row (Prelude/Sql).
--
-- Segments models src/services/segment_store.rs, the cache of media chunks on disk. Chunk has
-- the arithmetic on offsets and chunk numbers, with the wrap-around of u32 and u64; Paths the
-- paths of chunks and staging files; Table the rows of segment_cache with the files beside them
-- and the operations on both (store_chunk, range_status, purge_stale_chunks, touch_chunks); Read
-- the reassembly of a range; Tee the task that cuts a proxied stream into chunks
-- (tee_writer_task, flush_complete_chunks), and Stream the stream that feeds it
-- (TeeStream::poll_next). Coherence has the interleavings: Steps splits a store into its staging
-- file, its rename and its row, between which the lock of the chunk keeps other stores and
-- purges of the chunk out; Invariant, Kept and Reached show what the steps keep, and Readers and
-- Served what a reader finds, which takes no lock. The loop of flush_complete_chunks has fuel,
-- one more than the bytes of its buffer, of which every round takes at least one.
--
-- Ranges models src/services/segment_ranges.rs: Rows the table of byte ranges (store, store_all,
-- lookup, lookup_all), Memo the RangePersistMemo that keeps a set of ranges from being written
-- twice, with the caller of src/routes/videos.rs as the steps of Published.
--
-- Backfill models src/services/channel_backfill.rs, the background crawl of channels: Queue the
-- claims with their leases (claim_one_due, enqueue_run_now, unshelve), Failure what a failed run
-- does (record_failure, backoff_for_attempt), Apply what a finished run writes
-- (apply_backfill_entries, and upsert of src/models/video.rs), Run both (run_backfill_for), and
-- Allowlist the reconciliation with the allowlists (reconcile_with_allowlist). Claim, Retry and
-- Tombstones hold the theorems.
--
-- Access models src/services/access.rs, the decision whether a child may view a video. Auth models
-- the switch between profiles of src/routes/auth.rs: Throttle its SwitchThrottle, Switch the
-- handler, Entry who gets a session. Sabr models the verdict on the session and the cookie
-- generation of src/services/ytdlp.rs.
--
-- Metadata models the cache of extraction results of src/services/video_cache.rs: the parent file
-- how long a result may be served, Layers its memory and its table (get_cached, load_from_db,
-- store_in_db), Fill what a miss does (the closure of get_or_extract), with the cookie generation of
-- Sabr, and Key the fingerprint of the configuration (current_extractor_config_key). Eviction models
-- the cleanup of the chunk cache in the same file, on the disk of Segments and the table of Metadata:
-- the parent evict_video, and Cleanup the whole of cleanup_segment_cache; Lru, Kept, Cleaned and
-- Oldest hold the theorems. Links models the signed links of src/services/dash.rs: Encode the
-- escapes, Sign the signature over a query string (sign_query, verify_query, constant_time_eq), and
-- Cast the links. Sessions models src/models/session.rs with the layer of src/middleware/auth.rs,
-- Timer the handlers of src/routes/timer.rs, and Thumbnails src/services/thumbnail_store.rs.
-- Backfill/Lifecycle is the specification of one channel as a lease, which the queue implements.
--
-- Feed models src/services/feed_cache.rs and src/services/feed_refresher.rs, the feed of new videos:
-- Sources the polling columns of channels with the statements on them and the claims, Items the
-- batches of videos that a poll writes, Poll one poll with its fallback to the sidecar and the caps
-- on it, Relative the times that the sidecar gives in words, Config the tunables and Settings the
-- handler of src/routes/feed.rs that sets them, and Child the feed of a child, whose theorems in
-- Shown go by the decision of Access. Settled, Caps, Due, Unique, Claim, Kept and Tunables hold the other
-- theorems. Backfill and Feed each model the columns of channels that they keep.
--
-- Dash models which formats the manifest of src/services/dash.rs offers: Formats the tests on a
-- format (is_dash_usable), and Choice what is kept of them (dedupe_prefer_with_ranges,
-- trim_video_representations, trim_audio_representations, pick_main_audio_lang, and the pools of
-- synthesize_manifest). Maps in the order of their keys are lists of entries, whose order Heights
-- and Order show; Pools, Offered and Languages hold the other theorems.
--
-- Parameters of the model are what the source only calls: Argon2 (verify_pin), HMAC-SHA256 (mac),
-- SHA-256 with base64 (digest), serde's codecs (to_json, from_json, channel_of), the hash of the
-- standard library (fingerprint_rows), the random jitter, the reading of upload dates, the rounding
-- of durations, the floating-point numbers of formats, the answers of yt-dlp, of feeds and of the
-- sidecar, and where the source looks at it whether a statement, a file operation or a COMMIT
-- succeeds. Integer columns of the backfill hold natural numbers, since the source writes no other.
-- Not modelled: HTTP and templates, logging, the network clients, the XML text of the manifest,
-- the rate limit, which counts in floating-point numbers, the database helpers, the table of
-- flights of get_or_extract, clear_all, the eviction of thumbnails, and the loop of the feed
-- refresher, which spaces its polls in time.
pub mod Prelude
pub mod Segments
pub mod Backfill
pub mod Ranges
pub mod Access
pub mod Auth
pub mod Sabr
pub mod Links
pub mod Metadata
pub mod Eviction
pub mod Feed
pub mod Dash
pub mod Sessions
pub mod Timer
pub mod Thumbnails
pub mod Tests
