-- ===== src/Index/Successor.antt =====
-- The first entry of a branch of src/sasindexnode.cpp, and a well-formed tree between other bounds.
use sphde.Base.{ℕ, zero, suc, ◌+◌, ◌≤◌, ◌≡◌, inl, inr, refl, some, arith}
use sphde.Index.Nodes.{Node, null, node, Slots, nil, slot, min_count, count}
use sphde.Index.Order.{KeyOrder}
use sphde.Index.Shape.{Has, HasIn, Slotted, IsTree}
use sphde.Index.Search.{entry_at}
use sphde.Index.Delete.{leftmost}

module _ {K : Type 0} (o : KeyOrder K) where
  open o use {rank}

  Slotted-loosen :
      (P : ℕ → ℕ → Node K → Type 0)
      → ((lo hi hi' : ℕ) (b : Node K) → P lo hi b → hi ≤ hi' → P lo hi' b)
      → (lo hi hi' : ℕ) (b : Node K) (ss : Slots K) → Slotted o P lo hi b ss
      → hi ≤ hi'
      → Slotted o P lo hi' b ss
  unfolding Slotted
  Slotted-loosen P loosen lo hi hi' b nil s le = loosen lo hi hi' b s le
  Slotted-loosen P loosen lo hi hi' b (slot k v c ss) (s, lt, rest) le =
      (s, omega (arith, lt, le), Slotted-loosen P loosen (rank k + 1) hi hi' c ss rest le)

  pub IsTree-loosen :
      (low d lo hi hi' : ℕ) (t : Node K)
      → IsTree o low d lo hi t
      → hi ≤ hi'
      → IsTree o low d lo hi' t
  unfolding IsTree
  IsTree-loosen low zero lo hi hi' null h le = omega (arith, h, le)
  IsTree-loosen low zero lo hi hi' (node b ss) h le = absurd h
  IsTree-loosen low (suc d) lo hi hi' null h le = absurd h
  IsTree-loosen low (suc d) lo hi hi' (node b ss) (l, u, s) le =
      (l, u, Slotted-loosen (IsTree o min_count d) (IsTree-loosen min_count d) lo hi hi' b ss s le)

  -- A lower bound of the entries bounds the tree.
  pub IsTree-raise :
      (low d lo lo' hi : ℕ) (t : Node K)
      → IsTree o low d lo hi t
      → lo' ≤ hi
      → ((x : K) (v : ℕ) → Has x v t → lo' ≤ rank x)
      → IsTree o low d lo' hi t
  unfolding IsTree Slotted Has HasIn
  IsTree-raise low zero lo lo' hi null h le above = le
  IsTree-raise low zero lo lo' hi (node b ss) h le above = absurd h
  IsTree-raise low (suc d) lo lo' hi null h le above = absurd h
  IsTree-raise low (suc d) lo lo' hi (node b nil) (l, u, s) le above =
      (l, u, IsTree-raise min_count d lo lo' hi b s le (λ x v h. above x v (inl h)))
  IsTree-raise low (suc d) lo lo' hi (node b (slot k w c ss)) (l, u, (s, lt, rest)) le above = (
    l,
    u,
    (
      IsTree-raise min_count d lo lo' (rank k) b s (above k w (inr (inl (refl, refl))))
          (λ x v h. above x v (inl h)),
      lt,
      rest,
    ),
  )

  -- The successor of a key is the least entry of the branch behind it.
  pub leftmost_lem :
      (low d lo hi : ℕ) (t : Node K)
      → 1 ≤ low
      → IsTree o low (suc d) lo hi t
      → (k : K) × (v : ℕ) × (leftmost t ≡ some (k, v))
        × Has k v t
        × IsTree o low (suc d) (rank k) hi t
  unfolding IsTree Slotted Has HasIn leftmost entry_at count
  leftmost_lem low d lo hi null some_key h = absurd h
  leftmost_lem low d lo hi (node b nil) some_key h = absurd (omega (arith, some_key, h.0))
  leftmost_lem low zero lo hi (node null (slot k v c ss)) some_key (l, u, (s, lt, rest)) =
      (k, v, refl, inr (inl (refl, refl)), (l, u, (omega arith, lt, rest)))
  leftmost_lem low zero lo hi (node (node b' ss') (slot k v c ss)) some_key (l, u, (s, lt, rest)) =
      absurd s
  leftmost_lem low (suc d) lo hi (node null (slot k v c ss)) some_key (l, u, (s, lt, rest)) =
      absurd s
  leftmost_lem low (suc d) lo hi (node (node b' ss') (slot k v c ss)) some_key
        (l, u, (s, lt, rest)) =
      let (k', v', e, has, tree) =
        leftmost_lem min_count d lo (rank k) (node b' ss') (omega arith) s in
      (k', v', e, inl has, (l, u, (tree, lt, rest)))
