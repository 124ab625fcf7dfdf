-- ===== src/Ranges.antt =====
-- The cached byte ranges of src/services/segment_ranges.rs: the table of ranges, and the memo that
-- says which set is (being) written.
pub mod Rows
pub mod Memo
pub mod Stored
pub mod Published
pub mod Bounds
