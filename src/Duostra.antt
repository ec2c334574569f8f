-- ===== src/Duostra.antt =====
-- The mapping of circuits to devices (src/duostra).
pub mod Router
pub mod Placement
pub mod Placer
