-- ===== src/Packer.antt =====
-- The directory packer: archives of jobs.
pub mod Package
