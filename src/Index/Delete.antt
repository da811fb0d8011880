-- ===== src/Index/Delete.antt =====
-- Deletion from the B-tree of src/sasindexnode.cpp.
use Prim.Native.Nat.{Ordering}
use sphde.Base.{
  ℕ, zero, suc, ◌-◌, Bool, true, false, not, ◌&&◌, ltb, ◌==◌, if◌then◌else◌, Option, none, some,
}
use sphde.Index.Nodes.{
  Node, null, node, Slots, nil, slot, min_count, keys, count, branch_at, set_branch, is_null,
  descend, search_node,
}
use sphde.Index.Search.{entry_at}
use sphde.Index.Insert.{pop_last}

-- A separator with the branches on its two sides: one node of all, or two nodes again.
pub data Pair (K : Type 0) : Type 0 where
  joined : Node K → Pair K
  kept : Node K → K → ℕ → Node K → Pair K

module _ {K : Type 0} where
  -- `SASIndexNodeRemove` of a slot.
  unfoldable pub remove : ℕ → Slots K → Slots K
  remove p nil = nil
  remove zero (slot k v c ss) = slot k v c ss
  remove (suc zero) (slot k v c ss) = ss
  remove (suc (suc p)) (slot k v c ss) = slot k v c (remove (suc p) ss)

  -- The first of a node's slots behind those of another.
  unfoldable pub join : Slots K → K → ℕ → Node K → Slots K → Slots K
  join nil key val c rs = slot key val c rs
  join (slot k v d ss) key val c rs = slot k v d (join ss key val c rs)

  -- `SASIndexNodeCombine`: the left branch takes the separator and all of the right one.
  unfoldable pub combine : Node K → K → ℕ → Node K → Pair K
  unfolding join
  combine (node lb ls) k v (node rb rs) = joined (node lb (join ls k v rb rs))
  combine l k v r = kept l k v r

  -- `SASIndexNodeMoveLeft`: the separator goes to the left branch, the first of the right one comes up.
  unfoldable pub move_left : Node K → K → ℕ → Node K → Pair K
  unfolding join
  move_left (node lb ls) k v (node rb (slot rk rv rc rs)) =
      kept (node lb (join ls k v rb nil)) rk rv (node rc rs)
  move_left l k v r = kept l k v r

  -- `SASIndexNodeMoveRight`: the separator goes to the right branch, the last of the left one comes up.
  unfoldable pub move_right : Node K → K → ℕ → Node K → Pair K
  unfolding pop_last
  move_right (node lb ls) k v (node rb rs) = elim (pop_last ls) [
    | none ↦ kept (node lb ls) k v (node rb rs)
    | some (init, lk, lv, lc) ↦ kept (node lb init) lk lv (node lc (slot k v rb rs))
  ]
  move_right l k v r = kept l k v r

  -- The pair in its node again, before the slots behind it.
  unfoldable pub put_pair : Pair K → Slots K → Node K × Slots K
  put_pair (joined m) ss = (m, ss)
  put_pair (kept b k v c) ss = (b, slot k v c ss)

  -- A change of the separator at a position, from 1 on, and of the branches beside it.
  unfoldable pub update_pair :
      (Node K → K → ℕ → Node K → Pair K) → ℕ → Node K → Slots K → Node K × Slots K
  unfolding put_pair
  update_pair f p b nil = (b, nil)
  update_pair f zero b (slot k v c ss) = (b, slot k v c ss)
  update_pair f (suc zero) b (slot k v c ss) = put_pair (f b k v c) ss
  update_pair f (suc (suc p)) b (slot k v c ss) =
      let (c', ss') = update_pair f (suc p) c ss in (b, slot k v c' ss')

  unfoldable pub count_of : Node K → ℕ
  count_of null = 0
  count_of (node b ss) = count ss

  -- Whether `branch[p]` has more than the least count.
  unfoldable pub can_give : Node K → Slots K → ℕ → Bool
  unfolding count_of
  can_give b ss p = ltb min_count (count_of (branch_at b ss p))

  -- `SASIndexNodeRestore`
  unfoldable pub restore : ℕ → Node K → Slots K → Node K × Slots K
  unfolding update_pair combine move_left move_right can_give
  restore (suc p) b ss =
      if can_give b ss p
      then update_pair move_right (suc p) b ss
      else if can_give b ss (suc p)
      then update_pair move_left (suc p) b ss
      else if ltb (suc p) (count ss)
      then if can_give b ss (suc (suc p))
        then update_pair move_left (suc (suc p)) b ss
        else update_pair combine (suc p) b ss
      else update_pair combine (suc p) b ss
  restore zero b ss =
      if can_give b ss 1 then update_pair move_left 1 b ss else update_pair combine 1 b ss

  -- The end of `SASIndexNodeRecDelete`: a branch that has become too small is restored.
  unfoldable pub restore_if_small : ℕ → Node K → Slots K → Node K
  unfolding restore count_of is_null
  restore_if_small pos b ss =
      if not (is_null (branch_at b ss pos)) && ltb (count_of (branch_at b ss pos)) min_count
      then (let (b', ss') = restore pos b ss in node b' ss')
      else node b ss

  -- The entry that `SASIndexNodeSuccessor` finds: the first one in the branch.
  unfoldable pub leftmost : Node K → Option (K × ℕ)
  unfolding entry_at
  leftmost null = none
  leftmost (node null ss) = entry_at ss 1
  leftmost (node (node b rs) ss) = leftmost (node b rs)

  -- `keys[p] = key; vals[p] = val`
  unfoldable pub set_entry : ℕ → K → ℕ → Slots K → Slots K
  set_entry p key val nil = nil
  set_entry zero key val (slot k v c ss) = slot k v c ss
  set_entry (suc zero) key val (slot k v c ss) = slot key val c ss
  set_entry (suc (suc p)) key val (slot k v c ss) = slot k v c (set_entry (suc p) key val ss)

module _ {K : Type 0} where
  -- A node after the deletion in `branch[pos]`.
  unfoldable pub after_branch : ℕ → Node K → Slots K → Bool × Node K → Bool × Node K
  unfolding restore_if_small set_branch
  after_branch pos b ss (found, c) =
      let (b', ss') = set_branch pos c b ss in (found, restore_if_small pos b' ss')

  -- The deletion of the key at a position of the node: a leaf loses it, an inner node takes its
  -- successor instead.
  unfoldable pub delete_at : ℕ → Node K → Slots K → (K → Bool × Node K) → Bool × Node K
  unfolding remove restore_if_small leftmost set_entry after_branch is_null
  delete_at pos b ss below =
      if is_null (branch_at b ss (pos - 1))
      then (true, restore_if_small pos b (remove pos ss))
      else elim (leftmost (branch_at b ss pos)) [
        | none ↦ (false, node b ss)
        | some (k, v) ↦ after_branch pos b (set_entry pos k v ss) (below k)
      ]

  -- A root that has become empty gives way to its branch.
  unfoldable pub lower_root : Node K → Node K
  lower_root null = null
  lower_root (node b ss) = if count ss == 0 then b else node b ss

module _ {K : Type 0} (cmp : K → K → Ordering) where
  -- `SASIndexNodeRecDelete`: whether the key was there, and the node.
  unfoldable pub delete_step : Node K → Slots K → (ℕ → K → Bool × Node K) → K → Bool × Node K
  delete_step b ss below target =
      let (found, pos) = search_node cmp target (keys ss) in
      if found then delete_at pos b ss (below pos) else after_branch pos b ss (below pos target)

  unfoldable pub rec_delete : Node K → K → Bool × Node K
  rec_delete = descend (λ target. (false, null)) delete_step

  -- `SASIndexNodeDelete`
  unfoldable pub delete : Node K → K → Node K
  unfolding rec_delete lower_root
  delete t target = let (found, t') = rec_delete t target in if found then lower_root t' else t'
