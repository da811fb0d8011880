-- ===== src/Index/Revalue.antt =====
-- `SASIndexReplace` of src/sasindex.cpp: another value at the place that the search of
-- src/sasindexnode.cpp finds, in the tree as one thread sees it between the lock and the unlock.
use Prim.Native.Nat.{Ordering}
use sphde.Base.{ℕ, zero, suc, if◌then◌else◌, Option}
use sphde.Index.Nodes.{Node, null, node, Slots, nil, slot, keys, set_branch, descend, search_node}
use sphde.Index.Map.{Index, get, one_more}

module _ {K : Type 0} where
  -- `vals[p] = val`
  unfoldable pub set_val : ℕ → ℕ → Slots K → Slots K
  set_val p val nil = nil
  set_val zero val (slot k v c ss) = slot k v c ss
  set_val (suc zero) val (slot k v c ss) = slot k val c ss
  set_val (suc (suc p)) val (slot k v c ss) = slot k v c (set_val (suc p) val ss)

  -- The node with a branch that is changed in place.
  unfoldable pub with_branch : ℕ → Node K → Node K → Slots K → Node K
  unfolding set_branch
  with_branch p c b ss = let (b', ss') = set_branch p c b ss in node b' ss'

module _ {K : Type 0} (cmp : K → K → Ordering) where
  -- `SASIndexNodeSearch`, then `SASIndexNodePutValIndexed (ref.node, ref.pos, value)` where found
  unfoldable pub put_val_step : K → ℕ → Node K → Slots K → (ℕ → Node K) → Node K
  unfolding set_val with_branch
  put_val_step target val b ss below =
      let (found, pos) = search_node cmp target (keys ss) in
      if found then node b (set_val pos val ss) else with_branch pos (below pos) b ss

  unfoldable pub put_val : K → ℕ → Node K → Node K
  put_val target val = descend null (put_val_step target val)

  -- `SASIndexReplace`: the count goes up whether the key is there or not.
  unfoldable pub replace : Index K → K → ℕ → Option ℕ × Index K
  unfolding put_val get one_more
  replace i key value = (
    get cmp i key,
    record i {
      root = put_val key value i.root;
      entry_count = one_more i.entry_count;
      mod_count = one_more i.mod_count;
    },
  )
