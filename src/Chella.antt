-- ===== src/Chella.antt =====
-- The directory chella: the job runner.
pub mod Layout
pub mod Wal
