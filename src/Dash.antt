-- ===== src/Dash.antt =====
-- The manifest of src/services/dash.rs.
pub mod Formats
pub mod Choice
pub mod Pools
pub mod Heights
pub mod Offered
pub mod Order
pub mod Languages
