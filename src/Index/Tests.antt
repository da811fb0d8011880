-- ===== src/Index/Tests.antt =====
-- The theorems on src/sasindexnode.cpp and src/sasindexkey.h at concrete trees and keys.
use Prim.Native.Nat.{Ordering}
use sphde.Base.{
  if◌then◌else◌, ◌==◌, true, false, ℕ, zero, suc, ◌+◌, ◌-◌, ◌^◌, ◌≤◌, ◌≡◌, ◌≢◌, ◌⊎◌, ◌↔◌, refl,
  List, [], ◌∷◌, none, some, arith,
}
use sphde.Index.Keys.{
  key_compare, init_int64, return_int64, init_double, return_double, uint64_order, int64_lem,
  double_lem, signed_compare, has_sign,
}
use sphde.Index.Nodes.{Node, null, node, Slots, nil, slot, min_count, count, search_node}
use sphde.Index.Order.{KeyOrder, has_key, rank_in, search_node_lem}
use sphde.Index.Shape.{Has, Slotted, IsTree}
use sphde.Index.Beside.{LeastFrom}
use sphde.Index.Found.{search_lem}
use sphde.Index.Near.{search_gt_lem}
use sphde.Index.Pushed.{insert_lem}
use sphde.Index.Deleted.{delete_lem}
use sphde.Index.Map.{Index, get, put, remove_key, one_more}
use sphde.Index.MapLaws.{IsIndex, put_lem, remove_key_lem}
use sphde.Index.Revalue.{replace}
use sphde.Index.ReplaceLaws.{instead, replace_lem}
use sphde.Index.Search.{search, search_gt}
use sphde.Index.Insert.{insert}
use sphde.Index.Delete.{delete}

abbrev bytes_alike : List ℕ → List ℕ → ℕ → Ordering
bytes_alike xs ys n = Ordering.eq

abbrev order : KeyOrder ℕ
order = uint64_order bytes_alike

-- A leaf of `n` keys from `s` on, each its own value.
unfoldable row : ℕ → ℕ → Slots ℕ
row zero s = nil
row (suc n) s = slot s s null (row n (s + 1))

count-row : (n s : ℕ) → count (row n s) ≡ n
unfolding count row
count-row zero s = refl
count-row (suc n) s = omega (arith, count-row n (s + 1))

row-Slotted :
    (n s lo hi : ℕ)
    → lo ≤ s
    → s + n ≤ hi
    → Slotted order (IsTree order min_count 0) lo hi null (row n s)
unfolding row Slotted IsTree uint64_order
row-Slotted zero s lo hi l u = omega (arith, l, u)
row-Slotted (suc n) s lo hi l u =
    (l, omega (arith, u), row-Slotted n (s + 1) (s + 1) hi (omega arith) (omega (arith, u)))

-- A root over two leaves of the least count.
abbrev two_leaves : Node ℕ
two_leaves = node (node null (row 31 0)) (slot 50 50 (node null (row 31 100)) nil)

two_leaves-IsTree : IsTree order 1 2 0 1000 two_leaves
unfolding IsTree Slotted uint64_order count
two_leaves-IsTree = (
  omega arith,
  omega arith,
  (
    (
      omega (arith, count-row 31 0),
      omega (arith, count-row 31 0),
      row-Slotted 31 0 0 50 (omega arith) (omega arith),
    ),
    omega arith,
    (
      omega (arith, count-row 31 100),
      omega (arith, count-row 31 100),
      row-Slotted 31 100 51 1000 (omega arith) (omega arith),
    ),
  ),
)

-- A full leaf, which the insertion splits.
abbrev full_leaf : Node ℕ
full_leaf = node null (row 63 10)

full_leaf-IsTree : IsTree order 1 1 0 1000 full_leaf
unfolding IsTree
full_leaf-IsTree = (
  omega (arith, count-row 63 10),
  omega (arith, count-row 63 10),
  row-Slotted 63 10 0 1000 (omega arith) (omega arith),
)

abbrev nine_keys : List ℕ
nine_keys = 1 ∷ 3 ∷ 5 ∷ 7 ∷ 9 ∷ 11 ∷ 13 ∷ 15 ∷ 17 ∷ []

search_node_lem_example :
    search_node order.cmp 8 nine_keys ≡ (has_key order 8 nine_keys, rank_in order 8 nine_keys)
unfolding uint64_order
search_node_lem_example =
    search_node_lem order 8 nine_keys 0
      (
        omega arith,
        (
          omega arith,
          (
            omega arith,
            (
              omega arith,
              (omega arith, (omega arith, (omega arith, (omega arith, (omega arith, tt))))),
            ),
          ),
        ),
      )
      (omega arith) (omega arith)

search_lem_example :
    (search order.cmp 50 two_leaves ≡ some (50, 50))
    ↔ (Has 50 50 two_leaves × (order.rank 50 ≡ order.rank 50))
search_lem_example = search_lem order 50 1 2 0 1000 two_leaves (omega arith) two_leaves-IsTree 50 50

search_gt_lem_example :
    LeastFrom order (order.rank 30 + 1) two_leaves (search_gt order.cmp 30 two_leaves)
unfolding uint64_order
search_gt_lem_example =
    search_gt_lem order 30 1 2 0 1000 two_leaves (omega arith) two_leaves-IsTree (omega arith)
      (omega arith)

insert_lem_example :
    ((insert order.cmp 5 7 full_leaf ≡ none)
      × ((k : ℕ) × (v : ℕ) × Has k v full_leaf × (order.rank k ≡ order.rank 5)))
    ⊎ (((k : ℕ) (v : ℕ) → Has k v full_leaf → order.rank k ≢ order.rank 5)
        × ((t' : Node ℕ) × (insert order.cmp 5 7 full_leaf ≡ some t')
            × (IsTree order 1 1 0 1000 t' ⊎ IsTree order 1 2 0 1000 t')
            × ((x : ℕ) (w : ℕ) → Has x w t' ↔ (Has x w full_leaf ⊎ ((x ≡ 5) × (w ≡ 7))))))
unfolding uint64_order
insert_lem_example =
    insert_lem order 5 7 1 0 1000 full_leaf full_leaf-IsTree (omega arith) (omega arith)

delete_lem_example :
    (IsTree order 1 2 0 1000 (delete order.cmp two_leaves 50)
      ⊎ ((d' : ℕ) × (2 ≡ suc d') × IsTree order 1 d' 0 1000 (delete order.cmp two_leaves 50)))
    × ((x : ℕ) (w : ℕ)
        → Has x w (delete order.cmp two_leaves 50)
          ↔ (Has x w two_leaves × (order.rank x ≢ order.rank 50)))
delete_lem_example = delete_lem order 2 0 1000 two_leaves 50 two_leaves-IsTree

int64_lem_example :
    (key_compare bytes_alike (init_int64 (2 ^ 64 - 1)) (init_int64 5)
      ≡ signed_compare bytes_alike (2 ^ 64 - 1) 5)
    × (return_int64 (init_int64 (2 ^ 64 - 1)) ≡ 2 ^ 64 - 1)
int64_lem_example = int64_lem bytes_alike (2 ^ 64 - 1) 5 (omega arith) (omega arith)

-- The sign of the bits, which is what `value < 0.0` tests but for zeros and what is not a number.
double_lem_example :
    (return_double (init_double has_sign (2 ^ 63 + 5)) ≡ 2 ^ 63 + 5)
    × (key_compare bytes_alike (init_double has_sign (2 ^ 63 + 5)) (init_double has_sign 3)
        ≡ Ordering.lt)
unfolding has_sign
double_lem_example =
    double_lem bytes_alike has_sign (2 ^ 63 + 5) 3 (omega arith) (omega arith) refl refl

abbrev start_index : Index ℕ
start_index = record {
  root = two_leaves;
  entry_count = 63;
  mod_count = 63;
  min_key = some 0;
  max_key = some 130;
}

put_lem_example :
    ((get order.cmp start_index 40 ≡ none)
      × ((put order.cmp start_index 40 9).0 ≡ true)
      × IsIndex order 1000 (put order.cmp start_index 40 9).1
      × ((target : ℕ)
          → get order.cmp (put order.cmp start_index 40 9).1 target ≡ (
              if order.rank target == order.rank 40
              then some 9
              else get order.cmp start_index target)))
    ⊎ ((get order.cmp start_index 40 ≢ none)
        × (put order.cmp start_index 40 9
            ≡ (false, record start_index { entry_count = one_more 63 })))
unfolding uint64_order
put_lem_example = put_lem order 1000 start_index 40 9 (2, two_leaves-IsTree) (omega arith)

remove_key_lem_example :
    ((remove_key order.cmp start_index 50).0 ≡ get order.cmp start_index 50)
    × IsIndex order 1000 (remove_key order.cmp start_index 50).1
    × ((target : ℕ)
        → get order.cmp (remove_key order.cmp start_index 50).1 target
          ≡ (if order.rank target == order.rank 50 then none else get order.cmp start_index target))
remove_key_lem_example = remove_key_lem order 1000 start_index 50 (2, two_leaves-IsTree)

replace_lem_example :
    ((replace order.cmp start_index 50 9).0 ≡ get order.cmp start_index 50)
    × IsIndex order 1000 (replace order.cmp start_index 50 9).1
    × ((replace order.cmp start_index 50 9).1.entry_count ≡ one_more 63)
    × ((replace order.cmp start_index 50 9).1.mod_count ≡ one_more start_index.mod_count)
    × ((target : ℕ)
        → get order.cmp (replace order.cmp start_index 50 9).1 target ≡ (
            if order.rank target == order.rank 50
            then instead 9 (get order.cmp start_index 50)
            else get order.cmp start_index target))
replace_lem_example = replace_lem order 1000 start_index 50 9 (2, two_leaves-IsTree)
