-- ===== src/Index/Map.antt =====
-- src/sasindex.cpp: the index over its root node, as one thread sees it between the lock and the unlock.
--
-- The count is a `long`, of 64 bits in two's complement. A key of the header that is NULL is compared
-- nowhere that the root is not NULL; a comparison with it counts as false.
use Prim.Native.Nat.{Ordering}
use sphde.Base.{
  ℕ, ◌+◌, ◌-◌, ◌%◌, ◌^◌, Bool, true, false, ◌&&◌, ltb, ◌==◌, if◌then◌else◌, Option, none, some,
}
use sphde.Index.Nodes.{Node, null, node, Slots, count, keys, key_at, branch_at}
use sphde.Index.Search.{search}
use sphde.Index.Insert.{insert, initialize}
use sphde.Index.Delete.{delete}

-- `SASIndexHeader`, with the part that its blocks have in common
pub record Index (K : Type 0) : Type 0 where
  pub root : Node K
  pub entry_count : ℕ
  pub mod_count : ℕ
  pub min_key : Option K
  pub max_key : Option K

unfoldable pub one_more : ℕ → ℕ
one_more n = (n + 1) % 2 ^ 64

unfoldable pub one_less : ℕ → ℕ
one_less n = (n + (2 ^ 64 - 1)) % 2 ^ 64

-- `SASIndexNodeGetValIndexed (ref.node, ref.pos)` where found
unfoldable pub value_of : {K : Type 0} → Option (K × ℕ) → Option ℕ
value_of none = none
value_of (some (k, v)) = some v

module _ {K : Type 0} (cmp : K → K → Ordering) where
  -- `SASIndexGet`
  unfoldable pub get : Index K → K → Option ℕ
  unfolding value_of
  get i key = value_of (search cmp key i.root)

  -- `SASIndexContainsKey`
  unfoldable pub contains_key : Index K → K → Bool
  contains_key i key = elim (search cmp key i.root) [ none ↦ false | some e ↦ true ]

  -- `SASIndexIsEmpty`
  unfoldable pub is_empty : Index K → Bool
  is_empty i = i.entry_count == 0

  -- `SASIndexKeyCompare (key, btree->common->min_key)` against a result
  unfoldable pub compares : Ordering → K → Option K → Bool
  compares r key none = false
  compares r key (some k) = elim r [
    | Ordering.lt ↦ elim (cmp key k) [ Ordering.lt ↦ true | _ ↦ false ]
    | Ordering.eq ↦ elim (cmp key k) [ Ordering.eq ↦ true | _ ↦ false ]
    | Ordering.gt ↦ elim (cmp key k) [ Ordering.gt ↦ true | _ ↦ false ]
  ]

  -- The header after an insertion that gave a root, with the smallest and the greatest key.
  unfoldable pub with_root : Index K → K → Node K → Index K
  unfolding compares one_more
  with_root i key t = record {
    root = t;
    entry_count = one_more i.entry_count;
    mod_count = one_more i.mod_count;
    min_key = if compares Ordering.lt key i.min_key then some key else i.min_key;
    max_key = if compares Ordering.gt key i.max_key then some key else i.max_key;
  }

  unfoldable pub after_insert : Index K → K → Option (Node K) → Bool × Index K
  unfolding with_root one_more
  after_insert i key none = (false, record i { entry_count = one_more i.entry_count })
  after_insert i key (some t) = (true, with_root i key t)

  -- `SASIndexPut`: the count goes up with a duplicate key too.
  unfoldable pub put_in : Index K → K → ℕ → Node K → Bool × Index K
  unfolding after_insert one_more
  put_in i key value null = (
    true,
    record {
      root = initialize key value;
      entry_count = one_more i.entry_count;
      mod_count = one_more i.mod_count;
      min_key = some key;
      max_key = some key;
    },
  )
  put_in i key value (node b ss) = after_insert i key (insert cmp key value (node b ss))

  unfoldable pub put : Index K → K → ℕ → Bool × Index K
  unfolding put_in
  put i key value = put_in i key value i.root

  -- The new smallest and greatest key after a removal: those of the root or of the branch at its end.
  unfoldable pub end_key : (Node K → Slots K → ℕ) → (Node K → Slots K → ℕ) → Node K → Option K
  unfolding key_at branch_at keys
  end_key branch_of_end key_of_end null = none
  end_key branch_of_end key_of_end (node b ss) = elim (branch_at b ss (branch_of_end b ss)) [
    | null ↦ key_at (keys ss) (key_of_end b ss)
    | node b' ss' ↦ key_at (keys ss') (key_of_end b' ss')
  ]

  unfoldable pub first_key : Node K → Option K
  unfolding end_key
  first_key = end_key (λ b ss. 0) (λ b ss. 1)

  unfoldable pub last_key : Node K → Option K
  unfolding end_key
  last_key = end_key (λ b ss. count ss) (λ b ss. count ss)

  -- The header after a deletion that left a root.
  unfoldable pub without_key : Index K → K → Node K → Index K
  unfolding compares one_less one_more first_key last_key
  without_key i key null = record {
    root = null;
    entry_count = 0;
    mod_count = one_more i.mod_count;
    min_key = none;
    max_key = none;
  }
  without_key i key (node b ss) =
      let left = one_less i.entry_count in
      let some_left = ltb 0 left && ltb left (2 ^ 63) in
      record {
        root = node b ss;
        entry_count = left;
        mod_count = one_more i.mod_count;
        min_key =
            if some_left && compares Ordering.eq key i.min_key
            then first_key (node b ss)
            else i.min_key;
        max_key =
            if some_left && compares Ordering.eq key i.max_key
            then last_key (node b ss)
            else i.max_key;
      }

  -- `SASIndexRemove`
  unfoldable pub remove_from : Index K → K → Node K → Option ℕ × Index K
  unfolding without_key get one_more
  remove_from i key null = (none, record i { entry_count = 0; mod_count = one_more i.mod_count })
  remove_from i key (node b ss) = (get i key, without_key i key (delete cmp (node b ss) key))

  unfoldable pub remove_key : Index K → K → Option ℕ × Index K
  unfolding remove_from
  remove_key i key = remove_from i key i.root
