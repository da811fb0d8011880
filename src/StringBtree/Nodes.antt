-- ===== src/StringBtree/Nodes.antt =====
-- The functions of src/sasstringbtreenode.cpp: those of src/sasindexnode.cpp with `strcmp` for the
-- comparison. A key is the string's bytes, wherever its copy lies, and the allocation of a copy does not
-- fail.
use sphde.Base.{ℕ, Bool, List, Option}
use sphde.Index.Nodes
use sphde.Index.Nodes.{Node, Slots}
use sphde.Index.Search
use sphde.Index.Insert
use sphde.Index.Insert.{Pushed}
use sphde.Index.Delete
use sphde.Index.Delete.{Pair}
use sphde.StringBtree.Text.{Text, compare_texts}

module _ {limit : ℕ} where
  -- `SASStringBTreeNodeSearchNode`
  unfoldable pub search_node : Text limit → List (Text limit) → Bool × ℕ
  unfolding compare_texts
  search_node = Nodes.search_node compare_texts

  -- `SASStringBTreeNodeSearch`, `SearchGT`, `SearchGE`, `SearchLT` and `SearchLE`
  unfoldable pub search : Text limit → Node (Text limit) → Option (Text limit × ℕ)
  search = Search.search compare_texts

  unfoldable pub search_gt : Text limit → Node (Text limit) → Option (Text limit × ℕ)
  search_gt = Search.search_gt compare_texts

  unfoldable pub search_ge : Text limit → Node (Text limit) → Option (Text limit × ℕ)
  search_ge = Search.search_ge compare_texts

  unfoldable pub search_lt : Text limit → Node (Text limit) → Option (Text limit × ℕ)
  search_lt = Search.search_lt compare_texts

  unfoldable pub search_le : Text limit → Node (Text limit) → Option (Text limit × ℕ)
  search_le = Search.search_le compare_texts

  -- `SASStringBTreeNodePushIn`, `Split`, `PushDown`, `Initialize` and `Insert`
  unfoldable pub push_in :
      ℕ → Text limit → ℕ → Node (Text limit) → Slots (Text limit) → Slots (Text limit)
  push_in = Insert.push_in

  unfoldable pub split :
      Node (Text limit)
      → Slots (Text limit)
      → Text limit
      → ℕ
      → Node (Text limit)
      → ℕ
      → Pushed (Text limit)
  split = Insert.split

  unfoldable pub push_down : Text limit → ℕ → Node (Text limit) → Pushed (Text limit)
  push_down = Insert.push_down compare_texts

  unfoldable pub initialize : Text limit → ℕ → Node (Text limit)
  initialize = Insert.initialize

  unfoldable pub insert : Text limit → ℕ → Node (Text limit) → Option (Node (Text limit))
  insert = Insert.insert compare_texts

  -- `SASStringBTreeNodeRemove`, `Combine`, `MoveLeft`, `MoveRight` and `Restore`
  unfoldable pub remove : ℕ → Slots (Text limit) → Slots (Text limit)
  remove = Delete.remove

  unfoldable pub combine :
      Node (Text limit) → Text limit → ℕ → Node (Text limit) → Pair (Text limit)
  combine = Delete.combine

  unfoldable pub move_left :
      Node (Text limit) → Text limit → ℕ → Node (Text limit) → Pair (Text limit)
  move_left = Delete.move_left

  unfoldable pub move_right :
      Node (Text limit) → Text limit → ℕ → Node (Text limit) → Pair (Text limit)
  move_right = Delete.move_right

  unfoldable pub restore :
      ℕ → Node (Text limit) → Slots (Text limit) → Node (Text limit) × Slots (Text limit)
  restore = Delete.restore

  -- `SASStringBTreeNodeSuccessor`, `RecDelete` and `Delete`
  unfoldable pub leftmost : Node (Text limit) → Option (Text limit × ℕ)
  leftmost = Delete.leftmost

  unfoldable pub rec_delete : Node (Text limit) → Text limit → Bool × Node (Text limit)
  rec_delete = Delete.rec_delete compare_texts

  unfoldable pub delete : Node (Text limit) → Text limit → Node (Text limit)
  delete = Delete.delete compare_texts
