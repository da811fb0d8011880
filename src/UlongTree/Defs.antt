-- ===== src/UlongTree/Defs.antt =====
-- The node and the functions of src/ultree.cpp.
use sphde.Base.{
  ℕ, ◌+◌, Bool, true, false, ltb, ◌==◌, if◌then◌else◌, List, [], ◌∷◌, ◌++◌, Option, none, some,
}

-- `uLongTreeNode`: left, key, info, right.
pub data Tree : Type 0 where
  leaf : Tree
  node : Tree → ℕ → ℕ → Tree → Tree

unfoldable pub is_null : Tree → Bool
is_null leaf = true
is_null (node l key info r) = false

pub data Side : Type 0 where
  go_left : Side
  go_right : Side

abbrev pub Ref : Type 0
Ref = List Side

unfoldable pub insert_node : Tree → ℕ → ℕ → Bool × Tree
insert_node leaf k i = (true, node leaf k i leaf)
insert_node (node l key info r) k i =
    let (in_left, l') = insert_node l k i in
    let (in_right, r') = insert_node r k i in
    if ltb k key
    then (in_left, node l' key info r)
    else if ltb key k
    then (in_right, node l key info r')
    else (false, node l key info r)

-- `while ( q->left ) q = q->left; q->left = p->left`, from the right child on.
unfoldable pub attach_left : Tree → Tree → Tree
attach_left sub leaf = sub
attach_left sub (node l key info r) = node (attach_left sub l) key info r

-- `removeNode` and `deleteNode` on what `*pp` points to.
unfoldable pub remove_root : Tree → Tree
unfolding attach_left
remove_root leaf = leaf
remove_root (node l key info leaf) = l
remove_root (node leaf key info (node rl rk ri rr)) = node rl rk ri rr
remove_root (node (node ll lk li lr) key info (node rl rk ri rr)) =
    attach_left (node ll lk li lr) (node rl rk ri rr)

-- A store through the pointer at the end of a path.
unfoldable pub update_at : (Tree → Tree) → Ref → Tree → Tree
update_at f [] t = f t
update_at f (side ∷ path) leaf = leaf
update_at f (go_left ∷ path) (node l key info r) = node (update_at f path l) key info r
update_at f (go_right ∷ path) (node l key info r) = node l key info (update_at f path r)

unfoldable pub remove_node : Ref → Tree → Tree
unfolding update_at remove_root
remove_node pp t = update_at remove_root pp t

-- `*pp`
unfoldable pub deref : Ref → Tree → Tree
deref [] t = t
deref (side ∷ path) leaf = leaf
deref (go_left ∷ path) (node l key info r) = deref path l
deref (go_right ∷ path) (node l key info r) = deref path r

-- `searchNode` on a pointer: the node of the key, or else the last node met. `q` is what the loop has so
-- far.
unfoldable pub search_from : Tree → ℕ → Tree → Tree
unfolding is_null
search_from leaf k q = q
search_from (node l key info r) k q =
    let p = node l key info r in
    let right_q = if is_null r then p else q in
    let left_q = if is_null l then p else q in
    let in_right = search_from r k right_q in
    let in_left = search_from l k left_q in
    if key == k then p else if ltb key k then in_right else in_left

unfoldable pub search_node : Tree → ℕ → Tree
unfolding search_from
search_node root k = search_from root k leaf

-- `searchNode` on a pointer to a pointer: the path to the node that the other `searchNode` gives.
unfoldable pub search_ref_from : Tree → ℕ → Ref → Option Ref → Option Ref
unfolding is_null
search_ref_from leaf k pp qq = qq
search_ref_from (node l key info r) k pp qq =
    let right_qq = if is_null r then some pp else qq in
    let in_right = search_ref_from r k (pp ++ go_right ∷ []) right_qq in
    let in_left = search_ref_from l k (pp ++ go_left ∷ []) (some pp) in
    if key == k then some pp else if ltb key k then in_right else in_left

unfoldable pub search_ref : Tree → ℕ → Option Ref
unfolding search_ref_from
search_ref root k = search_ref_from root k [] none

-- `searchNextNode`, `searchEqualOrNextNode` and `searchPrevNode`.
unfoldable pub key_above : Tree → ℕ → Bool
key_above leaf k = false
key_above (node l key info r) k = ltb k key

unfoldable pub next_from : Tree → ℕ → Tree → Tree
unfolding key_above is_null
next_from leaf k q = q
next_from (node l key info r) k q =
    let p = node l key info r in
    let above = next_from r k r in
    let equal = if is_null r then q else above in
    let below = next_from r k q in
    let in_left = next_from l k p in
    if key == k
    then equal
    else if ltb key k
    then (if key_above r k then above else below)
    else in_left

unfoldable pub search_next_node : Tree → ℕ → Tree
unfolding next_from
search_next_node root k = next_from root k leaf

unfoldable pub equal_or_next_from : Tree → ℕ → Tree → Tree
unfolding key_above
equal_or_next_from leaf k q = q
equal_or_next_from (node l key info r) k q =
    let p = node l key info r in
    let above = equal_or_next_from r k r in
    let below = equal_or_next_from r k q in
    let in_left = equal_or_next_from l k p in
    if key == k then p else if ltb key k then (if key_above r k then above else below) else in_left

unfoldable pub search_equal_or_next_node : Tree → ℕ → Tree
unfolding equal_or_next_from
search_equal_or_next_node root k = equal_or_next_from root k leaf

unfoldable pub key_below : Tree → ℕ → Bool
key_below leaf k = false
key_below (node l key info r) k = ltb key k

unfoldable pub prev_from : Tree → ℕ → Tree → Tree
unfolding key_below is_null
prev_from leaf k q = q
prev_from (node l key info r) k q =
    let p = node l key info r in
    let below = prev_from l k l in
    let equal = if is_null l then q else below in
    let above = prev_from l k q in
    let in_right = prev_from r k p in
    if key == k
    then equal
    else if ltb key k
    then in_right
    else if key_below l k
    then below
    else above

unfoldable pub search_prev_node : Tree → ℕ → Tree
unfolding prev_from
search_prev_node root k = prev_from root k leaf

-- `totalNodes` and `maxNodeDepth`.
unfoldable pub total_from : Tree → ℕ → ℕ
total_from leaf count = count
total_from (node l key info r) count = total_from r (total_from l count + 1)

unfoldable pub max_depth_from : Tree → ℕ → ℕ → ℕ
max_depth_from leaf max depth = max
max_depth_from (node l key info r) max depth =
    let left_max = max_depth_from l max (depth + 1) in
    let here = if ltb left_max depth then depth else left_max in max_depth_from r here (depth + 1)
