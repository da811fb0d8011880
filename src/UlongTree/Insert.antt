-- ===== src/UlongTree/Insert.antt =====
-- `insertNode` of src/ultree.cpp.
use sphde.Base.{
  ℕ, ◌+◌, ◌≤◌, ◌<◌, ◌≡◌, ◌⊎◌, ◌↔◌, inl, inr, refl, sym, Bool, true, false, ltb, Bool-cases, arith,
}
use mathlib.Core.Path.{subst}
use sphde.UlongTree.Defs.{Tree, leaf, node, insert_node}
use sphde.UlongTree.Order.{Has, IsBst, key_bounds, children}

-- What `insertNode` of a key and info leaves of a tree whose keys are from `lo` on and below `hi`: the
-- keys are in order still, the nodes are those before and, where it succeeds, the new one; it fails
-- exactly where the key was there.
unfoldable pub Inserted : ℕ → ℕ → Tree → ℕ → ℕ → Bool × Tree → Type 0
Inserted lo hi t k i p =
    IsBst lo hi p.1
    × ((k' i' : ℕ) → Has k' i' p.1 ↔ (Has k' i' t ⊎ ((p.0 ≡ true) × (k' ≡ k) × (i' ≡ i))))
    × ((p.0 ≡ false) → (j : ℕ) × Has k j t)
    × ((p.0 ≡ true) → (j : ℕ) → ¬ (Has k j t))

insert_left :
    (l r : Tree) (lo hi key info k i : ℕ) (p : Bool × Tree)
    → IsBst lo hi (node l key info r)
    → k < key
    → Inserted lo key l k i p
    → Inserted lo hi (node l key info r) k i (p.0, node p.1 key info r)
unfolding Inserted Has IsBst
insert_left l r lo hi key info k i p (lo_key, key_hi, bl, br) less (order, nodes, refused, fresh) =
    (
      (lo_key, key_hi, order, br),
      λ k' i'. ground (arith, nodes k' i'),
      λ e. let (j, h) = refused e in (j, inl h),
      λ e j h. elim h [
        | inl a ↦ fresh e j a
        | inr (inl (same, _)) ↦ absurd (omega (arith, same, less))
        | inr (inr a) ↦
            let (low, _) = key_bounds r (key + 1) hi k j br a in absurd (omega (arith, low, less))
      ],
    )

insert_right :
    (l r : Tree) (lo hi key info k i : ℕ) (p : Bool × Tree)
    → IsBst lo hi (node l key info r)
    → key < k
    → Inserted (key + 1) hi r k i p
    → Inserted lo hi (node l key info r) k i (p.0, node l key info p.1)
unfolding Inserted Has IsBst
insert_right l r lo hi key info k i p (lo_key, key_hi, bl, br) less (order, nodes, refused, fresh) =
    (
      (lo_key, key_hi, bl, order),
      λ k' i'. ground (arith, nodes k' i'),
      λ e. let (j, h) = refused e in (j, inr (inr h)),
      λ e j h. elim h [
        | inl a ↦ let (_, high) = key_bounds l lo key k j bl a in absurd (omega (arith, high, less))
        | inr (inl (same, _)) ↦ absurd (omega (arith, same, less))
        | inr (inr a) ↦ fresh e j a
      ],
    )

insert_same :
    (l r : Tree) (lo hi key info k i : ℕ)
    → IsBst lo hi (node l key info r)
    → k ≡ key
    → Inserted lo hi (node l key info r) k i (false, node l key info r)
unfolding Inserted Has
insert_same l r lo hi key info k i b same =
    (b, λ k' i'. ground arith, λ e. (info, inr (inl (same, refl))), λ e j h. ground (arith, e))

insert_first :
    (lo hi k i : ℕ) → lo ≤ k → k < hi → Inserted lo hi leaf k i (true, node leaf k i leaf)
unfolding Inserted Has IsBst
insert_first lo hi k i low high = (
  (low, high, low, omega (arith, high)),
  λ k' i'. ground arith,
  λ e. absurd (ground (arith, e)),
  λ e j h. h,
)

-- Inserting into a tree in order keeps the order, adds exactly the new node, and is refused, with the
-- tree as it was, exactly where the key is there.
pub insert_node-Inserted :
    (t : Tree) (lo hi k i : ℕ)
    → IsBst lo hi t
    → lo ≤ k
    → k < hi
    → Inserted lo hi t k i (insert_node t k i)
unfolding insert_node
insert_node-Inserted leaf lo hi k i b low high = insert_first lo hi k i low high
insert_node-Inserted (node l key info r) lo hi k i b low high = elim (Bool-cases (ltb k key)) [
  | inl y ↦
      let eq : insert_node (node l key info r) k i
          ≡ ((insert_node l k i).0, node (insert_node l k i).1 key info r) =
        ground (arith, y) in
      subst (Inserted lo hi (node l key info r) k i) (sym eq) (
        insert_left l r lo hi key info k i (insert_node l k i) b (ground (arith, y)) (
          insert_node-Inserted l lo key k i (children l r lo hi key info b).2 low
            (ground (arith, y))))
  | inr n ↦ elim (Bool-cases (ltb key k)) [
    | inl y ↦
        let eq : insert_node (node l key info r) k i
            ≡ ((insert_node r k i).0, node l key info (insert_node r k i).1) =
          ground (arith, y, n) in
        subst (Inserted lo hi (node l key info r) k i) (sym eq) (
          insert_right l r lo hi key info k i (insert_node r k i) b (ground (arith, y)) (
            insert_node-Inserted r (key + 1) hi k i (children l r lo hi key info b).3
              (ground (arith, y)) high))
    | inr m ↦
        let eq : insert_node (node l key info r) k i ≡ (false, node l key info r) =
          ground (arith, m, n) in
        subst (Inserted lo hi (node l key info r) k i) (sym eq)
          (insert_same l r lo hi key info k i b (ground (arith, m, n)))
  ]
]
