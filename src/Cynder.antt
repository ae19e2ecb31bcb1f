-- ===== src/Cynder.antt =====
-- The directory cynder: the storage node.
pub mod Layout
pub mod Page
pub mod Ring
