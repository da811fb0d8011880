-- ===== src/Index/Nodes.antt =====
-- The nodes and their parts, and the search in one node, of src/sasindexnode.cpp.
--
-- The order of keys is a parameter, `cmp`, which stands for SASIndexKeyCompare: `lt`, `eq` and `gt` are
-- its -1, 0 and 1.
use Prim.Native.Nat.{Ordering}
use mathlib.Core.Path.{fun_ext}
use sphde.Base.{
  ◌≡◌, refl, ap, ℕ, zero, suc, ◌+◌, ◌-◌, ◌/◌, Bool, true, false, ltb, leb, ◌==◌, if◌then◌else◌,
  List, [], ◌∷◌, Option, none, some, length,
}

-- `SASIndexNodeHeader`
mutual
  pub data Node (K : Type 0) : Type 0 where
    null : Node K
    node : Node K → Slots K → Node K

  pub data Slots (K : Type 0) : Type 0 where
    nil : Slots K
    slot : K → ℕ → Node K → Slots K → Slots K

-- `default_max` and the half of it, the least count of a node that is not the root.
abbrev pub default_max : ℕ
default_max = 63

abbrev pub min_count : ℕ
min_count = default_max / 2

-- The result of the branch at a position, out of those of `branch[0]` and of the slots.
unfoldable pub pick : {R : Type 0} → R → List R → ℕ → R
pick r rs zero = r
pick r [] (suc p) = r
pick r (s ∷ rs) (suc p) = pick s rs p

module _ {K : Type 0} where
  unfoldable pub keys : Slots K → List K
  keys nil = []
  keys (slot k v b ss) = k ∷ keys ss

  unfoldable pub count : Slots K → ℕ
  count nil = 0
  count (slot k v b ss) = count ss + 1

  -- `keys[p]`
  unfoldable pub key_at : List K → ℕ → Option K
  key_at [] p = none
  key_at (k ∷ ks) zero = none
  key_at (k ∷ ks) (suc zero) = some k
  key_at (k ∷ ks) (suc (suc p)) = key_at ks (suc p)

  -- `branch[p]`
  unfoldable pub branch_at : Node K → Slots K → ℕ → Node K
  branch_at b ss zero = b
  branch_at b nil (suc p) = b
  branch_at b (slot k v c ss) (suc p) = branch_at c ss p

  unfoldable pub is_null : Node K → Bool
  is_null null = true
  is_null (node b ss) = false

  -- `branch[p] = c`
  unfoldable pub set_branch : ℕ → Node K → Node K → Slots K → Node K × Slots K
  set_branch zero c b ss = (c, ss)
  set_branch (suc p) c b nil = (b, nil)
  set_branch (suc p) c b (slot k v d ss) =
      let (d', ss') = set_branch p c d ss in (b, slot k v d' ss')

  module _ {R : Type 0} (at_null : R) (at_node : Node K → Slots K → (ℕ → R) → R) where
    unfoldable mutual
      unfolding pick

      -- A recursion down the tree: `at_node` is given what the recursion returns from each branch.
      pub descend : Node K → R
      descend null = at_null
      descend (node b ss) = at_node b ss (pick (descend b) (descend_each ss))

      pub descend_each : Slots K → List R
      descend_each nil = []
      descend_each (slot k v c ss) = descend c ∷ descend_each ss

    pick-descend :
        (b : Node K) (ss : Slots K) (p : ℕ)
        → pick (descend b) (descend_each ss) p ≡ descend (branch_at b ss p)
    unfolding descend_each branch_at pick
    pick-descend b ss zero = refl
    pick-descend b nil (suc p) = refl
    pick-descend b (slot k v c ss) (suc p) = pick-descend c ss p

    -- One step of the recursion is the call on the branch itself.
    pub descend-node :
        (b : Node K) (ss : Slots K)
        → descend (node b ss) ≡ at_node b ss (λ p. descend (branch_at b ss p))
    unfolding descend
    descend-node b ss = ap (at_node b ss) (fun_ext (pick-descend b ss))

module _ {K : Type 0} (cmp : K → K → Ordering) (target : K) (ks : List K) where
  -- `SASIndexKeyCompare (target, node->keys[p])`
  unfoldable pub cmp_at : ℕ → Ordering
  unfolding key_at
  cmp_at p = elim (key_at ks p) [ none ↦ Ordering.gt | some k ↦ cmp target k ]

  -- The loop for a node of less than 8 keys.
  unfoldable pub walk_down : ℕ → ℕ
  unfolding cmp_at
  walk_down zero = 0
  walk_down (suc zero) = 1
  walk_down (suc (suc p)) =
      let rest = walk_down (suc p) in
      elim (cmp_at (suc (suc p))) [ Ordering.lt ↦ rest | _ ↦ suc (suc p) ]

  -- `while (m <= node->count) m = m + m`
  unfoldable pub double_past : ℕ → ℕ → ℕ
  double_past zero m = m
  double_past (suc fuel) m =
      let rest = double_past fuel (m + m) in if leb m (length ks) then rest else m

  -- The loop for a node of 8 keys or more.
  unfoldable pub probe : ℕ → ℕ → ℕ → ℕ
  unfolding cmp_at
  probe zero position m = position
  probe (suc fuel) position m =
      let left = probe fuel (position - m) (m / 2) in
      let right = probe fuel (position + m) (m / 2) in
      let here = probe fuel position 0 in
      if m == 0
      then position
      else if ltb (length ks) position
      then left
      else elim (cmp_at position) [ Ordering.lt ↦ left | Ordering.gt ↦ right | Ordering.eq ↦ here ]

  -- `target between positions; fix up`
  unfoldable pub fix_up : ℕ → ℕ
  unfolding cmp_at
  fix_up position =
      if ltb (length ks) position
      then length ks
      else elim (cmp_at position) [ Ordering.lt ↦ position - 1 | _ ↦ position ]

  unfoldable pub position_of : ℕ
  position_of =
      if ltb (length ks) 8
      then walk_down (length ks)
      else let start = double_past 16 8 / 2 in fix_up (probe 16 start (start / 2))

  -- `SASIndexNodeSearchNode`: whether the key is found, and the position. A result below 0 in the code
  -- is a position less 256 and says that the key is not found.
  unfoldable pub search_node : Bool × ℕ
  search_node = elim (cmp_at 1) [
    | Ordering.lt ↦ (false, 0)
    | _ ↦ (elim (cmp_at position_of) [ Ordering.eq ↦ true | _ ↦ false ], position_of)
  ]
