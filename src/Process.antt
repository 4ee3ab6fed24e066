-- ===== src/Process.antt =====
-- The start of the programs: cmd and what it sets up.
pub mod Manager
pub mod Aggregated
