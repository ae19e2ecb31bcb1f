-- ===== src/Common.antt =====
-- The directory common: helpers that the services share.
pub mod Crc32
pub mod Linklist
pub mod Hdb
pub mod Weburl
