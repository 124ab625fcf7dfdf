-- ===== src/Links.antt =====
-- The signed URLs of src/services/dash.rs.
pub mod Encode
pub mod Sign
pub mod Cast
