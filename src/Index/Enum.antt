-- ===== src/Index/Enum.antt =====
-- src/sasindexenum.cpp: the enumeration of an index, as one thread sees it between the lock and the
-- unlock.
--
-- `ref.node` is the node with what it reaches when `ref` was set. The code reads it only where the count of
-- changes of the index is still the one of that time, and so the node is still the same.
use Prim.Native.Nat.{Ordering}
use sphde.Base.{ℕ, ◌+◌, Bool, true, false, not, ltb, ◌==◌, if◌then◌else◌, Option, none, some}
use sphde.Index.Nodes.{
  Node, null, node, Slots, keys, count, branch_at, is_null, descend, search_node,
}
use sphde.Index.Search.{entry_at}
use sphde.Index.Map.{Index, is_empty}

-- `__IDXnodePosRef`
abbrev pub Ref : Type 0 → Type 0
Ref K = Node K × ℕ

-- `__IDXEnumeration`
pub record Enumeration (K : Type 0) : Type 0 where
  pub curkey : K
  pub ref : Option (Ref K)
  pub curmod : ℕ
  pub has_more : Bool

module _ {K : Type 0} where
  -- `keys[pos]` and `vals[pos]` of a node
  unfoldable pub entry_in : Ref K → Option (K × ℕ)
  unfolding entry_at
  entry_in (null, p) = none
  entry_in (node b ss, p) = entry_at ss p

  -- `ref` behind the position, where there is an entry
  unfoldable pub ref_after : Node K → Slots K → ℕ → Option (Ref K)
  ref_after b ss pos = if ltb pos (count ss) then some (node b ss, pos + 1) else none

  -- The reference from the branch, or else the one from this node.
  unfoldable pub or_ref : Option (Ref K) → Option (Ref K) → Option (Ref K)
  or_ref (some r) other = some r
  or_ref none other = other

module _ {K : Type 0} (cmp : K → K → Ordering) where
  -- What `SASIndexNodeSearchGT` and `SASIndexNodeSearchGE` leave in `ref`
  unfoldable pub gt_ref_step : K → Node K → Slots K → (ℕ → Option (Ref K)) → Option (Ref K)
  unfolding ref_after or_ref
  gt_ref_step target b ss below =
      let (found, pos) = search_node cmp target (keys ss) in
      if is_null (branch_at b ss pos)
      then ref_after b ss pos
      else if found
      then below pos
      else or_ref (below pos) (ref_after b ss pos)

  unfoldable pub gt_ref : K → Node K → Option (Ref K)
  gt_ref target = descend none (gt_ref_step target)

  unfoldable pub ge_ref_step : K → Node K → Slots K → (ℕ → Option (Ref K)) → Option (Ref K)
  unfolding ref_after or_ref
  ge_ref_step target b ss below =
      let (found, pos) = search_node cmp target (keys ss) in
      if found
      then some (node b ss, pos)
      else if is_null (branch_at b ss pos)
      then ref_after b ss pos
      else or_ref (below pos) (ref_after b ss pos)

  unfoldable pub ge_ref : K → Node K → Option (Ref K)
  ge_ref target = descend none (ge_ref_step target)

  -- `SASIndexKeyCompare (curkey, maxkey) < 0`
  unfoldable pub is_below : K → K → Bool
  is_below key bound = elim (cmp key bound) [ Ordering.lt ↦ true | _ ↦ false ]

  -- `SASIndexEnumCreate`, from the key that stands before the others, and `SASIndexEnumHasMore`
  unfoldable pub create : K → Index K → Option (Enumeration K)
  unfolding is_empty
  create start i =
      if i.mod_count == 0
      then none
      else some (record {
        curkey = start;
        ref = none;
        curmod = i.mod_count;
        has_more = not (is_empty cmp i);
      })

  unfoldable pub enum_has_more : Enumeration K → Bool
  enum_has_more e = e.has_more

  -- The next reference in the node, or from it down
  unfoldable pub forward : K → Ref K → Option (Ref K)
  unfolding gt_ref
  forward key (null, p) = none
  forward key (node b ss, p) =
      if ltb p (count ss)
      then if is_null (branch_at b ss p) then some (node b ss, p + 1) else gt_ref key (node b ss)
      else none

  -- The next reference from `ref`, where the index did not change, and from the root
  unfoldable pub from_ref : Enumeration K → Index K → Option (Ref K)
  unfolding forward
  from_ref e i = elim e.ref [
    | none ↦ none
    | some r ↦ if i.mod_count == e.curmod then forward e.curkey r else none
  ]

  unfoldable pub from_root : Enumeration K → Index K → Option (Ref K)
  unfolding gt_ref ge_ref
  from_root e i = elim e.ref [ none ↦ ge_ref e.curkey i.root | some r ↦ gt_ref e.curkey i.root ]

  -- The enumeration at what was found
  unfoldable pub move_to : Enumeration K → Index K → K → Option (Ref K) → Option ℕ × Enumeration K
  unfolding entry_in is_below
  move_to e i bound none = (none, record e { has_more = false })
  move_to e i bound (some r) = elim (entry_in r) [
    | none ↦ (none, record e { has_more = false })
    | some (k, v) ↦ (
      some v,
      record { curkey = k; ref = some r; curmod = i.mod_count; has_more = is_below k bound },
    )
  ]

  -- `SASIndexEnumNext`
  unfoldable pub enum_next : Enumeration K → Index K → Option ℕ × Enumeration K
  unfolding is_below from_ref from_root or_ref move_to
  enum_next e i = elim i.max_key [
    | none ↦ (none, e)
    | some bound ↦
        if is_below e.curkey bound
        then move_to e i bound (or_ref (from_ref e i) (from_root e i))
        else (none, record e { has_more = false })
  ]
