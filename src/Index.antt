-- ===== src/Index.antt =====
-- SASIndex: src/sasindexnode.cpp, the nodes of its B-tree, src/sasindexkey.h, its keys, and
-- src/sasindex.cpp, the index over its root node.
--
-- A node is `branch[0]` with its slots, where slot i holds keys[i], vals[i] and branch[i], from 1 to
-- `count`; the places of the arrays behind `count` are unused. A key is its contents, wherever its copy
-- lies: the code keeps a copy in the node's block where there is room, and its allocation does not fail.
pub mod Keys
pub mod Nodes
pub mod Order
pub mod Shape
pub mod Entries
pub mod Found
pub mod Halves
pub mod Joined
pub mod Pushed
pub mod Pairs
pub mod Restored
pub mod Balance
pub mod Settled
pub mod Successor
pub mod Replaced
pub mod Revalue
pub mod Revalued
pub mod Beside
pub mod Near
pub mod Nearest
pub mod NodeDeleted
pub mod Deleted
pub mod Lookup
pub mod Map
pub mod MapLaws
pub mod ReplaceLaws
pub mod Enum
pub mod EnumRef
pub mod EnumForward
pub mod EnumNext
pub mod EnumAll
mod Tests
mod EnumTests
pub mod Search
pub mod Insert
pub mod Delete
