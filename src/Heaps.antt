-- ===== src/Heaps.antt =====
-- Blocks of a region and the heaps made of one block: the block header of src/sasalloc.h and
-- src/sasalloc.cpp, src/sassimpleheap.cpp, src/sassimplestack.cpp and src/sassimplespace.cpp.
--
-- A function without its lock and the same under the lock are two definitions, as in the code; one thread
-- sees them between the lock and the unlock. The functions that get a block of the region
-- (SASBlockAlloc) and find one from an address in it (SASFindHeader) are arguments.
pub mod Block
pub mod Simple
pub mod SimpleLaws
pub mod SimpleUse
pub mod Stack
pub mod StackLaws
pub mod Space
pub mod SpaceLaws
mod Tests
