-- ===== src/UlongTree/Remove.antt =====
-- `removeNode` and `deleteNode` of src/ultree.cpp.
use sphde.Base.{ℕ, ◌+◌, ◌≤◌, ◌≡◌, ◌≢◌, ◌⊎◌, ◌↔◌, inl, inr, refl, ap, sym, arith, [], ◌∷◌}
use mathlib.Core.Path.{subst}
use sphde.UlongTree.Defs.{
  is_null, Tree, leaf, node, Ref, go_left, go_right, attach_left, remove_root, update_at,
  remove_node, deref,
}
use sphde.UlongTree.Order.{Has, IsBst, key_bounds}

-- Bounds may be loosened.
loosen_bounds :
    (t : Tree) (lo hi lo' hi' : ℕ) → lo' ≤ lo → hi ≤ hi' → IsBst lo hi t → IsBst lo' hi' t
unfolding IsBst
loosen_bounds leaf lo hi lo' hi' a b h = omega (arith, a, b, h)
loosen_bounds (node l key info r) lo hi lo' hi' a b (lo_key, key_hi, bl, br) = (
  omega (arith, a, lo_key),
  omega (arith, b, key_hi),
  loosen_bounds l lo key lo' key a (omega arith) bl,
  loosen_bounds r (key + 1) hi (key + 1) hi' (omega arith) b br,
)

bounds_le : (t : Tree) (lo hi : ℕ) → IsBst lo hi t → lo ≤ hi
unfolding IsBst
bounds_le leaf lo hi b = b
bounds_le (node l key info r) lo hi (low, high, bl, br) = omega (arith, low, high)

-- Attaching a tree of smaller keys keeps the order and has the nodes of both.
attach_left-IsBst :
    (sub t : Tree) (lo key hi : ℕ)
    → IsBst lo key sub
    → IsBst (key + 1) hi t
    → IsBst lo hi (attach_left sub t)
unfolding attach_left IsBst
attach_left-IsBst sub leaf lo key hi bs bt =
    loosen_bounds sub lo key lo hi (omega arith) (omega (arith, bt)) bs
attach_left-IsBst sub (node l k i r) lo key hi bs (low, high, bl, br) =
    (omega (arith, low, bounds_le sub lo key bs), high, attach_left-IsBst sub l lo key k bs bl, br)

Has-attach_left : (sub t : Tree) (k i : ℕ) → Has k i (attach_left sub t) ↔ (Has k i sub ⊎ Has k i t)
unfolding attach_left Has
Has-attach_left sub leaf k i = ground arith
Has-attach_left sub (node l key info r) k i = ground (arith, Has-attach_left sub l k i)

-- Removing the root of a tree in order leaves a tree in order of the nodes with the other keys.
remove_root-IsBst : (t : Tree) (lo hi : ℕ) → IsBst lo hi t → IsBst lo hi (remove_root t)
unfolding remove_root IsBst
remove_root-IsBst leaf lo hi b = b
remove_root-IsBst (node l key info leaf) lo hi (low, high, bl, br) =
    loosen_bounds l lo key lo hi (omega arith) (omega (arith, high)) bl
remove_root-IsBst (node leaf key info (node rl rk ri rr)) lo hi (low, high, bl, br) =
    loosen_bounds (node rl rk ri rr) (key + 1) hi lo hi (omega (arith, low)) (omega arith) br
remove_root-IsBst (node (node ll lk li lr) key info (node rl rk ri rr)) lo hi (low, high, bl, br) =
    attach_left-IsBst (node ll lk li lr) (node rl rk ri rr) lo key hi bl br

-- The nodes that are left are those of other keys.
Has-remove_root :
    (l r : Tree) (lo hi key info k i : ℕ)
    → IsBst lo hi (node l key info r)
    → Has k i (remove_root (node l key info r)) ↔ (Has k i (node l key info r) × (k ≢ key))
unfolding remove_root Has IsBst
Has-remove_root l leaf lo hi key info k i (low, high, bl, br) =
    ground (arith, λ (h : Has k i l). key_bounds l lo key k i bl h)
Has-remove_root leaf (node rl rk ri rr) lo hi key info k i (low, high, bl, br) =
    let above =
      λ (h : Has k i (node rl rk ri rr)). key_bounds (node rl rk ri rr) (key + 1) hi k i br h in
    ground (arith, above)
Has-remove_root (node ll lk li lr) (node rl rk ri rr) lo hi key info k i (low, high, bl, br) =
    let below = λ (h : Has k i (node ll lk li lr)). key_bounds (node ll lk li lr) lo key k i bl h in
    let above =
      λ (h : Has k i (node rl rk ri rr)). key_bounds (node rl rk ri rr) (key + 1) hi k i br h in
    ground (arith, above, below, Has-attach_left (node ll lk li lr) (node rl rk ri rr) k i)

-- A node that a pointer into the tree stands at is one of the tree.
Has-deref :
    (pp : Ref) (t l r : Tree) (key info : ℕ) → deref pp t ≡ node l key info r → Has key info t
unfolding deref Has is_null
Has-deref [] t l r key info e = subst (Has key info) (sym e) (inr (inl (refl, refl)))
Has-deref (side ∷ pp) leaf l r key info e = ground (arith, ap is_null e)
Has-deref (go_left ∷ pp) (node tl tk ti tr) l r key info e = inl (Has-deref pp tl l r key info e)
Has-deref (go_right ∷ pp) (node tl tk ti tr) l r key info e =
    inr (inr (Has-deref pp tr l r key info e))

-- Removing a node through a pointer into a tree in order keeps the order, and the nodes that are left
-- are those of other keys.
pub remove_node_lem :
    (pp : Ref) (t l r : Tree) (lo hi key info : ℕ)
    → IsBst lo hi t
    → deref pp t ≡ node l key info r
    → IsBst lo hi (remove_node pp t)
      × ((k i : ℕ) → Has k i (remove_node pp t) ↔ (Has k i t × (k ≢ key)))
unfolding remove_node update_at deref is_null IsBst Has
remove_node_lem [] t l r lo hi key info b e = (
  remove_root-IsBst t lo hi b,
  λ k i.
      subst (λ (x : Tree). IsBst lo hi x → Has k i (remove_root x) ↔ (Has k i x × (k ≢ key)))
        (sym e) (Has-remove_root l r lo hi key info k i) b,
)
remove_node_lem (side ∷ pp) leaf l r lo hi key info b e = absurd (ground (arith, ap is_null e))
remove_node_lem (go_left ∷ pp) (node tl tk ti tr) l r lo hi key info b e =
    let (low, high, bl, br) = b in
    let (order, nodes) = remove_node_lem pp tl l r lo tk key info bl e in
    let (_, key_tk) = key_bounds tl lo tk key info bl (Has-deref pp tl l r key info e) in
    (
      (low, high, order, br),
      λ k i.
          let above = λ (h : Has k i tr). key_bounds tr (tk + 1) hi k i br h in
          ground (arith, nodes k i, above, key_tk),
    )
remove_node_lem (go_right ∷ pp) (node tl tk ti tr) l r lo hi key info b e =
    let (low, high, bl, br) = b in
    let (order, nodes) = remove_node_lem pp tr l r (tk + 1) hi key info br e in
    let (tk_key, _) = key_bounds tr (tk + 1) hi key info br (Has-deref pp tr l r key info e) in
    (
      (low, high, bl, order),
      λ k i.
          let below = λ (h : Has k i tl). key_bounds tl lo tk k i bl h in
          ground (arith, nodes k i, below, tk_key),
    )
