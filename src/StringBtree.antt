-- ===== src/StringBtree.antt =====
-- SASStringBTree: src/sasstringbtreenode.cpp, the nodes of a B-tree of strings, and
-- src/sasstringbtree.cpp, the tree over its root node; src/sasstringbtreeenum.cpp, the enumeration.
--
-- Function by function the code is that of src/sasindexnode.cpp and src/sasindex.cpp with strings for
-- keys: `strcmp` stands where SASIndexKeyCompare does, and a key is copied by `strlen` and `strcpy`. The
-- definitions are those of the index at the keys of StringBtree/Text.antt, whose length has a limit.
pub mod Text
pub mod Nodes
pub mod Map
pub mod Laws
pub mod Enum
mod Tests
