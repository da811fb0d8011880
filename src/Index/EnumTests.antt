-- ===== src/Index/EnumTests.antt =====
-- The theorems on src/sasindexenum.cpp at a concrete index.
use Prim.Native.Nat.{Ordering}
use sphde.Base.{ℕ, true, List, none, some}
use sphde.Index.Nodes.{Node, null, node, nil, slot}
use sphde.Index.Keys.{uint64_order}
use sphde.Index.Order.{KeyOrder}
use sphde.Index.Map.{Index}
use sphde.Index.Enum.{Enumeration}

abbrev bytes_alike : List ℕ → List ℕ → ℕ → Ordering
bytes_alike xs ys n = Ordering.eq

abbrev order : KeyOrder ℕ
order = uint64_order bytes_alike

abbrev short_leaf : Node ℕ
short_leaf = node null (slot 10 7 null (slot 20 8 null nil))

abbrev two_keys : Index ℕ
two_keys = record {
  root = short_leaf;
  entry_count = 2;
  mod_count = 2;
  min_key = some 10;
  max_key = some 20;
}

abbrev begun : Enumeration ℕ
begun = record { curkey = 0; ref = none; curmod = 2; has_more = true }
