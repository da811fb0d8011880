-- ===== src/StringBtree/Map.antt =====
-- src/sasstringbtree.cpp: the B-tree of strings over its root node, as one thread sees it between the
-- lock and the unlock.
use sphde.Base.{ℕ, Bool, Option}
use sphde.Index.Map
use sphde.Index.Map.{Index}
use sphde.Index.Revalue
use sphde.StringBtree.Text.{Text, compare_texts}

-- `SASStringBTreeHeader`, with the part that its blocks have in common
abbrev pub StringBtree : ℕ → Type 0
StringBtree limit = Index (Text limit)

module _ {limit : ℕ} where
  -- `SASStringBTreeGet`, `ContainsKey` and `IsEmpty`
  unfoldable pub get : StringBtree limit → Text limit → Option ℕ
  get = Map.get compare_texts

  unfoldable pub contains_key : StringBtree limit → Text limit → Bool
  contains_key = Map.contains_key compare_texts

  unfoldable pub is_empty : StringBtree limit → Bool
  is_empty = Map.is_empty compare_texts

  -- `SASStringBTreePut`, `Replace` and `Remove`
  unfoldable pub put : StringBtree limit → Text limit → ℕ → Bool × StringBtree limit
  put = Map.put compare_texts

  unfoldable pub replace : StringBtree limit → Text limit → ℕ → Option ℕ × StringBtree limit
  replace = Revalue.replace compare_texts

  unfoldable pub remove_key : StringBtree limit → Text limit → Option ℕ × StringBtree limit
  remove_key = Map.remove_key compare_texts
