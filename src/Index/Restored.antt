-- ===== src/Index/Restored.antt =====
-- `SASIndexNodeRestore` of src/sasindexnode.cpp: a node whose branch at a position is short of an
-- entry, and what becomes of it.
use sphde.Base.{ℕ, zero, suc, ◌+◌, ◌≤◌, ◌<◌, ◌⊎◌, ◌↔◌, arith}
use sphde.Index.Nodes.{Node, node, Slots, nil, slot, min_count, count, branch_at}
use sphde.Index.Order.{KeyOrder}
use sphde.Index.Shape.{Has, HasIn, Slotted, IsTree, hi_at}
use sphde.Index.Pairs.{OfPair, PairFits}
use sphde.Index.Delete.{Pair, joined, kept, put_pair, update_pair}

module _ {K : Type 0} (o : KeyOrder K) where
  open o use {rank}

  -- The branches satisfy `P` between their keys, but for the one at a position, which satisfies `Q`.
  unfoldable pub Holed :
      (ℕ → ℕ → Node K → Type 0) → (ℕ → ℕ → Node K → Type 0) → ℕ → ℕ → ℕ → Node K → Slots K → Type 0
  Holed P Q zero lo hi b nil = Q lo hi b
  Holed P Q zero lo hi b (slot k v c ss) =
      Q lo (rank k) b × (rank k < hi) × Slotted o P (rank k + 1) hi c ss
  Holed P Q (suc p) lo hi b nil = ⊥
  Holed P Q (suc p) lo hi b (slot k v c ss) =
      P lo (rank k) b × (rank k < hi) × Holed P Q p (rank k + 1) hi c ss

  module _ (d : ℕ) where
    abbrev P : ℕ → ℕ → Node K → Type 0
    P = IsTree o min_count d

    -- A node is well formed up to its count, which is that of another or less by 1, and has these
    -- entries.
    unfoldable pub Restored : ℕ → ℕ → ℕ → (K → ℕ → Type 0) → Node K × Slots K → Type 0
    Restored lo hi n E (b, ss) =
        Slotted o P lo hi b ss
        × (n ≤ count ss + 1)
        × (count ss ≤ n)
        × ((x : K) (w : ℕ) → Has x w (node b ss) ↔ E x w)

    Restored-same :
        (lo hi n : ℕ) (E E' : K → ℕ → Type 0)
        → ((x : K) (w : ℕ) → E x w ↔ E' x w)
        → (r : Node K × Slots K) → Restored lo hi n E r
        → Restored lo hi n E' r
    unfolding Restored
    Restored-same lo hi n E E' same (b, ss) (s, l, u, has) =
        (s, l, u, λ x w. (λ h. (same x w).0 ((has x w).0 h), λ e. (has x w).1 ((same x w).1 e)))

    entries :
        (b : Node K) (k : K) (v : ℕ) (c : Node K) (ss : Slots K) (x : K) (w : ℕ)
        → (OfPair o b k v c x w ⊎ HasIn x w ss) ↔ Has x w (node b (slot k v c ss))
    unfolding Has HasIn
    entries b k v c ss x w = grind arith

    -- A slot and its branch before the slots that are restored.
    Restored-slot :
        (lo hi : ℕ) (b : Node K) (k : K) (v : ℕ) (c : Node K) (ss : Slots K)
        → P lo (rank k) b
        → rank k < hi
        → (r : Node K × Slots K)
        → Restored (rank k + 1) hi (count ss) (λ x w. Has x w (node c ss)) r
        → Restored lo hi
            (count ss + 1)
            (λ x w. Has x w (node b (slot k v c ss)))
            (b, slot k v r.0 r.1)
    unfolding Restored Slotted count Has HasIn
    Restored-slot lo hi b k v c ss s lt (c', ss') (rest, l, u, has) =
        ((s, lt, rest), omega (arith, l), omega (arith, u), λ x w. grind (arith, has x w))

    put_pair_lem :
        (R : ℕ → ℕ → Node K → Type 0) (lo lo' hi : ℕ) (c : Node K) (E : K → ℕ → Type 0) (r : Pair K)
        (ss : Slots K)
        → Holed P R zero lo' hi c ss
        → PairFits o d lo (hi_at o zero hi ss) E r
        → Restored lo hi (count ss + 1) (λ x w. E x w ⊎ HasIn x w ss) (put_pair r ss)
    unfolding Restored put_pair PairFits Holed Slotted hi_at count Has HasIn
    put_pair_lem R lo lo' hi c E (joined m) nil h (tree, has) =
        (tree, omega arith, omega arith, λ x w. grind (arith, has x w))
    put_pair_lem R lo lo' hi c E (kept l k v r) nil h (left, lt, right, has) =
        ((left, lt, right), omega arith, omega arith, λ x w. grind (arith, has x w))
    put_pair_lem R lo lo' hi c E (joined m) (slot k v c' ss) (_, lt, rest) (tree, has) =
        ((tree, lt, rest), omega arith, omega arith, λ x w. grind (arith, has x w))
    put_pair_lem R lo lo' hi c E (kept l k' v' r) (slot k v c' ss) (_, lt, rest)
          (left, lt', right, has) =
        (
          (left, omega (arith, lt, lt'), (right, lt, rest)),
          omega arith,
          omega arith,
          λ x w. grind (arith, has x w),
        )

    module _ (L R : ℕ → ℕ → Node K → Type 0) where
      -- The branches on the two sides of a separator satisfy `L` and `R`, the others `P`.
      unfoldable pub AtPair : ℕ → ℕ → ℕ → Node K → Slots K → Type 0
      AtPair p lo hi b nil = ⊥
      AtPair zero lo hi b (slot k v c ss) =
          L lo (rank k) b × (rank k < hi) × Holed P R zero (rank k + 1) hi c ss
      AtPair (suc p) lo hi b (slot k v c ss) =
          P lo (rank k) b × (rank k < hi) × AtPair p (rank k + 1) hi c ss

      Holed-at :
          (lo hi : ℕ) (b : Node K) (ss : Slots K)
          → Holed P R zero lo hi b ss
          → R lo (hi_at o zero hi ss) b
      unfolding Holed hi_at
      Holed-at lo hi b nil h = h
      Holed-at lo hi b (slot k v c ss) h = h.0

      hi_at_le :
          (lo hi n : ℕ) (b : Node K) (ss : Slots K)
          → Holed P R zero lo hi b ss
          → n < lo
          → ((lo hi : ℕ) (b : Node K) → R lo hi b → lo ≤ hi)
          → n < hi_at o zero hi ss
      hi_at_le lo hi n b ss h l le =
          omega (arith, l, le lo (hi_at o zero hi ss) b (Holed-at lo hi b ss h))

      pub update_pair_lem :
          (f : Node K → K → ℕ → Node K → Pair K)
          → ((lo hi : ℕ) (b : Node K) → R lo hi b → lo ≤ hi)
          → (p lo hi : ℕ) (b : Node K) (ss : Slots K) → AtPair p lo hi b ss
          → ((lo hi : ℕ) (k : K) (v : ℕ)
              → L lo (rank k) (branch_at b ss p)
              → rank k < hi
              → R (rank k + 1) hi (branch_at b ss (suc p))
              → PairFits o d lo hi
                  (OfPair o (branch_at b ss p) k v (branch_at b ss (suc p)))
                  (f (branch_at b ss p) k v (branch_at b ss (suc p))))
          → Restored lo hi (count ss) (λ x w. Has x w (node b ss)) (update_pair f (suc p) b ss)
      unfolding AtPair update_pair branch_at count
      update_pair_lem f le p lo hi b nil at fits = absurd at
      update_pair_lem f le zero lo hi b (slot k v c ss) (left, lt, rest) fits =
          let lt' = hi_at_le (rank k + 1) hi (rank k) c ss rest (omega arith) le in
          Restored-same lo hi (count ss + 1) (λ x w. OfPair o b k v c x w ⊎ HasIn x w ss)
            (λ x w. Has x w (node b (slot k v c ss))) (entries b k v c ss) (put_pair (f b k v c) ss)
            (put_pair_lem R lo (rank k + 1) hi c (OfPair o b k v c) (f b k v c) ss rest
              (fits lo (hi_at o zero hi ss) k v left lt' (Holed-at (rank k + 1) hi c ss rest)))
      update_pair_lem f le (suc p) lo hi b (slot k v c ss) (s, lt, rest) fits =
          Restored-slot lo hi b k v c ss s lt (update_pair f (suc p) c ss)
            (update_pair_lem f le p (rank k + 1) hi c ss rest fits)
