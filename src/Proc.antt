-- ===== src/Proc.antt =====
-- The process manager, src/proc/proc.c.
pub mod State
pub mod Errno
pub mod Run
pub mod Queue
pub mod Descriptor
pub mod Family
pub mod Search
pub mod Context
pub mod Lifecycle
pub mod Channel
pub mod Schedule
pub mod Dispatch
pub mod Sound
pub mod Steady
mod Tests
