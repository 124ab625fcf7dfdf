-- ===== src/Segments.antt =====
-- The chunk cache of src/services/segment_store.rs: its chunk arithmetic and paths, its table and
-- files, the writer behind a proxied stream, and the reader.
pub mod Chunk
pub mod Tee
pub mod Stream
pub mod Read
pub mod Table
pub mod Paths
pub mod Coherence
mod Tests
