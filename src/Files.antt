-- ===== src/Files.antt =====
-- The file system, src/libk/filesystem.c.
pub mod State
pub mod Words
pub mod Blocks
pub mod Descriptors
pub mod Content
pub mod Paths
pub mod Start
mod Tests
