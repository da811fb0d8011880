-- ===== src/UlongTree.antt =====
-- src/ultree.h and src/ultree.cpp: the binary search tree of `unsigned long` keys in which the region
-- manager keeps its free and used regions.
--
-- A tree is what is reached from a `uLongTreeNode *`, NULL being `leaf`. A `uLongTreeNode **` into it is
-- the path from the root to the place where the pointer stands. The calls that take a key and an info
-- get their node from SASNearAlloc, whose success they do not test; `insert_node` begins with the node.
pub mod Defs
pub mod Order
pub mod Insert
pub mod Remove
pub mod Next
pub mod Places
mod Tests
