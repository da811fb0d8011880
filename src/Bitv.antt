-- ===== src/Bitv.antt =====
-- src/bitv.c and src/bitv_priv.h: allocation of units from the bits of a word. A bit that is 1 is a
-- free unit; in the second word of the marked functions it is the last unit of an allocation.
pub mod Word
pub mod Units
pub mod Alloc
pub mod Aligned
pub mod Free
pub mod WordLaws
pub mod Runs
pub mod Found
pub mod Marked
pub mod Roundtrip
pub mod Calls
pub mod Space
pub mod Estimate
mod Tests
pub mod AlignedLaws
