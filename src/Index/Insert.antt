-- ===== src/Index/Insert.antt =====
-- Insertion into the B-tree of src/sasindexnode.cpp.
use Prim.Native.Nat.{Ordering}
use sphde.Base.{ℕ, zero, suc, ◌+◌, ◌-◌, ltb, leb, if◌then◌else◌, Option, none, some}
use sphde.Index.Nodes.{
  Node, null, node, Slots, nil, slot, default_max, min_count, keys, count, set_branch, descend,
  search_node,
}

module _ {K : Type 0} where
  -- The slots up to a position, and those behind it.
  unfoldable pub first : ℕ → Slots K → Slots K
  first zero ss = nil
  first (suc p) nil = nil
  first (suc p) (slot k v c ss) = slot k v c (first p ss)

  unfoldable pub behind : ℕ → Slots K → Slots K
  behind zero ss = ss
  behind (suc p) nil = nil
  behind (suc p) (slot k v c ss) = behind p ss

  -- `SASIndexNodePushIn` behind position `p`: those from there on move up by one.
  unfoldable pub push_in : ℕ → K → ℕ → Node K → Slots K → Slots K
  push_in zero key val right ss = slot key val right ss
  push_in (suc p) key val right nil = slot key val right nil
  push_in (suc p) key val right (slot k v c ss) = slot k v c (push_in p key val right ss)

  -- The slots without the last, and the last.
  unfoldable pub pop_last : Slots K → Option (Slots K × K × ℕ × Node K)
  pop_last nil = none
  pop_last (slot k v c ss) = elim (pop_last ss) [
    | none ↦ some (nil, k, v, c)
    | some (init, k', v', c') ↦ some (slot k v c init, k', v', c')
  ]

-- What `SASIndexNodePushDown` leaves: the node; or the two halves of it with the entry between them to
-- push up in `ref`; or `dupKey`.
pub data Pushed (K : Type 0) : Type 0 where
  done : Node K → Pushed K
  up : Node K → K → ℕ → Node K → Pushed K
  duplicate : Pushed K

module _ {K : Type 0} where
  -- The slots of the node and of `yr`, of a full node, once the entry is pushed into one of them behind
  -- `pos`.
  unfoldable pub halves : Slots K → K → ℕ → Node K → ℕ → Slots K × Slots K
  unfolding first behind push_in
  halves ss key val right pos =
      if leb pos min_count
      then (push_in pos key val right (first min_count ss), behind min_count ss)
      else (
        first (min_count + 1) ss,
        push_in (pos - (min_count + 1)) key val right (behind (min_count + 1) ss),
      )

  -- `SASIndexNodeSplit`: the last entry of the first half goes up.
  unfoldable pub split : Node K → Slots K → K → ℕ → Node K → ℕ → Pushed K
  unfolding halves pop_last
  split b ss key val right pos =
      let (left, yr) = halves ss key val right pos in
      elim (pop_last left) [
        | none ↦ done (node b left)
        | some (init, k, v, c) ↦ up (node b init) k v (node c yr)
      ]

  -- The part of `SASIndexNodePushDown` behind `if (pushup)`.
  unfoldable pub take_up : Node K → Slots K → K → ℕ → Node K → ℕ → Pushed K
  unfolding push_in split
  take_up b ss key val right pos =
      if ltb (count ss) default_max
      then done (node b (push_in pos key val right ss))
      else split b ss key val right pos

  -- `SASIndexNodePushDown` once it returns from the branch at `pos`.
  unfoldable pub after_push : ℕ → Node K → Slots K → Pushed K → Pushed K
  unfolding take_up set_branch
  after_push pos b ss duplicate = duplicate
  after_push pos b ss (done c) = let (b', ss') = set_branch pos c b ss in done (node b' ss')
  after_push pos b ss (up c k v right) =
      let (b', ss') = set_branch pos c b ss in take_up b' ss' k v right pos

  -- The root after the push: a new one over the two halves where it was split.
  unfoldable pub new_root : Pushed K → Option (Node K)
  new_root duplicate = none
  new_root (done t) = some t
  new_root (up left k v right) = some (node left (slot k v right nil))

module _ {K : Type 0} (cmp : K → K → Ordering) (key : K) (val : ℕ) where
  -- `SASIndexNodePushDown`
  unfoldable pub push_step : Node K → Slots K → (ℕ → Pushed K) → Pushed K
  unfolding after_push
  push_step b ss below =
      let (found, pos) = search_node cmp key (keys ss) in
      if found then duplicate else after_push pos b ss (below pos)

  unfoldable pub push_down : Node K → Pushed K
  push_down = descend (up null key val null) push_step

  -- `SASIndexNodeInsert`, NULL for a duplicate key.
  unfoldable pub insert : Node K → Option (Node K)
  unfolding push_down new_root
  insert t = new_root (push_down t)

-- `SASIndexNodeInitialize` of an empty node.
unfoldable pub initialize : {K : Type 0} → K → ℕ → Node K
initialize key val = node null (slot key val null nil)
