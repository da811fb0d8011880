-- ===== src/Entry.antt =====
-- src/sphlfentry.h: the lock-free entry, a header and the data behind it, filled and read through a
-- handle.
pub mod Memory
pub mod Header
pub mod Handle
pub mod Bounds
pub mod Completion
pub mod Roundtrip
pub mod Text
mod Tests
