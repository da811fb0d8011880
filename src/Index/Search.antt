-- ===== src/Index/Search.antt =====
-- The searches of src/sasindexnode.cpp down the tree. The result is the key and the value at the node
-- and the position that the code leaves in `ref`.
use Prim.Native.Nat.{Ordering}
use sphde.Base.{ℕ, zero, suc, ◌+◌, ◌-◌, ltb, if◌then◌else◌, Option, none, some}
use sphde.Index.Nodes.{
  Node, Slots, nil, slot, keys, count, branch_at, is_null, descend, search_node,
}

module _ {K : Type 0} where
  -- `keys[p]` and `vals[p]`
  unfoldable pub entry_at : Slots K → ℕ → Option (K × ℕ)
  entry_at nil p = none
  entry_at (slot k v b ss) zero = none
  entry_at (slot k v b ss) (suc zero) = some (k, v)
  entry_at (slot k v b ss) (suc (suc p)) = entry_at ss (suc p)

  -- The result from the branch, or else the one from this node.
  unfoldable pub or_else : Option (K × ℕ) → Option (K × ℕ) → Option (K × ℕ)
  or_else (some e) other = some e
  or_else none other = other

  -- The entry behind the position, and the one at it, where there is one.
  unfoldable pub entry_after : Slots K → ℕ → Option (K × ℕ)
  unfolding entry_at
  entry_after ss pos = if ltb pos (count ss) then entry_at ss (pos + 1) else none

  unfoldable pub entry_here : Slots K → ℕ → Option (K × ℕ)
  unfolding entry_at
  entry_here ss pos = if ltb 0 pos then entry_at ss pos else none

module _ {K : Type 0} (cmp : K → K → Ordering) (target : K) where
  abbrev Below : Type 0
  Below = ℕ → Option (K × ℕ)

  -- `SASIndexNodeSearch`
  unfoldable pub search_step : Node K → Slots K → Below → Option (K × ℕ)
  unfolding entry_at
  search_step b ss below =
      let (found, pos) = search_node cmp target (keys ss) in
      if found then entry_at ss pos else below pos

  unfoldable pub search : Node K → Option (K × ℕ)
  search = descend none search_step

  -- `SASIndexNodeSearchGT`
  unfoldable pub search_gt_step : Node K → Slots K → Below → Option (K × ℕ)
  search_gt_step b ss below =
      let (found, pos) = search_node cmp target (keys ss) in
      if is_null (branch_at b ss pos)
      then entry_after ss pos
      else if found
      then below pos
      else or_else (below pos) (entry_after ss pos)

  unfoldable pub search_gt : Node K → Option (K × ℕ)
  search_gt = descend none search_gt_step

  -- `SASIndexNodeSearchGE`
  unfoldable pub search_ge_step : Node K → Slots K → Below → Option (K × ℕ)
  search_ge_step b ss below =
      let (found, pos) = search_node cmp target (keys ss) in
      if found
      then entry_at ss pos
      else if is_null (branch_at b ss pos)
      then entry_after ss pos
      else or_else (below pos) (entry_after ss pos)

  unfoldable pub search_ge : Node K → Option (K × ℕ)
  search_ge = descend none search_ge_step

  -- `SASIndexNodeSearchLT`
  unfoldable pub search_lt_step : Node K → Slots K → Below → Option (K × ℕ)
  search_lt_step b ss below =
      let (found, pos) = search_node cmp target (keys ss) in
      if found
      then if is_null (branch_at b ss (pos - 1))
        then if ltb 1 pos then entry_at ss (pos - 1) else none
        else below (pos - 1)
      else if is_null (branch_at b ss pos)
      then entry_here ss pos
      else or_else (below pos) (entry_here ss pos)

  unfoldable pub search_lt : Node K → Option (K × ℕ)
  search_lt = descend none search_lt_step

  -- `SASIndexNodeSearchLE`
  unfoldable pub search_le_step : Node K → Slots K → Below → Option (K × ℕ)
  search_le_step b ss below =
      let (found, pos) = search_node cmp target (keys ss) in
      if found
      then entry_at ss pos
      else if is_null (branch_at b ss pos)
      then entry_here ss pos
      else or_else (below pos) (entry_here ss pos)

  unfoldable pub search_le : Node K → Option (K × ℕ)
  search_le = descend none search_le_step
