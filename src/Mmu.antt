-- ===== src/Mmu.antt =====
-- The memory management unit, src/memory/mmu.c.
pub mod State
pub mod Entry
pub mod Walk
pub mod Pages
pub mod Bind
pub mod Tables
pub mod Free
pub mod Fork
pub mod Fault
pub mod Sync
mod Tests
