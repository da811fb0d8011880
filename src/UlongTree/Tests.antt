-- ===== src/UlongTree/Tests.antt =====
-- Runs of src/ultree.cpp on a tree of three regions.
use sphde.Base.{ℕ, ◌≡◌, ◌≢◌, ◌↔◌, refl, arith, [], ◌∷◌, some}
use sphde.UlongTree.Defs.{
  Tree, leaf, node, go_left, insert_node, remove_node, deref, search_ref, search_ref_from,
  search_next_node, search_prev_node, next_from, prev_from, key_above, key_below, is_null,
  total_from, max_depth_from, search_equal_or_next_node, equal_or_next_from, update_at, remove_root,
  attach_left,
}
use sphde.UlongTree.Order.{Has, IsBst}
use sphde.UlongTree.Insert.{Inserted, insert_node-Inserted}
use sphde.UlongTree.Remove.{remove_node_lem}
use sphde.UlongTree.Next.{Gives, search_next_node_lem}

abbrev low : Tree
low = node leaf 10 1 leaf

abbrev high : Tree
high = node leaf 30 3 leaf

abbrev regions : Tree
regions = node low 20 2 high

regions-IsBst : IsBst 0 100 regions
unfolding IsBst
regions-IsBst = (
  omega arith,
  omega arith,
  (omega arith, omega arith, omega arith, omega arith),
  (omega arith, omega arith, omega arith, omega arith),
)

regions_at : deref [] regions ≡ node low 20 2 high
unfolding deref
regions_at = refl

insert_node-Inserted_example : Inserted 0 100 regions 25 4 (insert_node regions 25 4)
insert_node-Inserted_example =
    insert_node-Inserted regions 0 100 25 4 regions-IsBst (omega arith) (omega arith)

remove_node_lem_example :
    IsBst 0 100 (remove_node [] regions)
    × ((k i : ℕ) → Has k i (remove_node [] regions) ↔ (Has k i regions × (k ≢ 20)))
remove_node_lem_example = remove_node_lem [] regions low high 0 100 20 2 regions-IsBst regions_at

search_next_node_lem_example : Gives 10 regions leaf (search_next_node regions 10)
search_next_node_lem_example = search_next_node_lem regions 0 100 10 regions-IsBst

removed_root : remove_node [] regions ≡ node (node leaf 10 1 leaf) 30 3 leaf
unfolding remove_node update_at remove_root attach_left
removed_root = refl

next_of_low : search_next_node regions 10 ≡ regions
unfolding search_next_node next_from key_above is_null
next_of_low = refl

previous_of_high : search_prev_node regions 30 ≡ regions
unfolding search_prev_node prev_from key_below is_null
previous_of_high = refl

next_or_equal_25 : search_equal_or_next_node regions 25 ≡ high
unfolding search_equal_or_next_node equal_or_next_from key_above
next_or_equal_25 = refl

place_of_15 : search_ref regions 15 ≡ some (go_left ∷ [])
unfolding search_ref search_ref_from is_null
place_of_15 = refl

nodes_of_regions : total_from regions 0 ≡ 3
unfolding total_from
nodes_of_regions = refl

depth_of_regions : max_depth_from regions 0 0 ≡ 1
unfolding max_depth_from
depth_of_regions = refl
