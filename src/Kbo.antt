-- ===== src/Kbo.antt =====
-- The rules of the KBO prediction game (src/kbo), without the database.
pub mod Identifiers
pub mod Return
pub mod Placement
pub mod Settlement
pub mod Credit
pub mod Tests
