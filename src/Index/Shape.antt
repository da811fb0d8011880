-- ===== src/Index/Shape.antt =====
-- Well-formed B-trees of src/sasindexnode.cpp: all leaves at one depth, the keys in order, and the
-- counts of the nodes in their bounds.
use sphde.Base.{ℕ, zero, suc, ◌+◌, ◌≤◌, ◌<◌, ◌≡◌, ◌⊎◌, ◌↔◌, refl, false, length, arith, dec_lt}
use sphde.Index.Nodes.{
  Node, null, node, Slots, nil, slot, default_max, min_count, keys, count, branch_at, set_branch,
}
use sphde.Index.Insert.{push_in}
use sphde.Index.Order.{KeyOrder, Increasing, rank_in, has_key}

-- The tree has this entry; the slots have it, in themselves or in their branches.
module _ {K : Type 0} (key : K) (val : ℕ) where
  unfoldable mutual
    pub Has : Node K → Type 0
    Has null = ⊥
    Has (node b ss) = Has b ⊎ HasIn ss

    pub HasIn : Slots K → Type 0
    HasIn nil = ⊥
    HasIn (slot k v c ss) = ((key ≡ k) × (val ≡ v)) ⊎ Has c ⊎ HasIn ss

  -- The entry stands in the node, outside the branch at a position.
  unfoldable pub HasBut : ℕ → Node K → Slots K → Type 0
  unfolding HasIn Has
  HasBut zero b ss = HasIn ss
  HasBut (suc p) b nil = ⊥
  HasBut (suc p) b (slot k v c ss) = Has b ⊎ ((key ≡ k) × (val ≡ v)) ⊎ HasBut p c ss

  pub Has-branch_at :
      (p : ℕ) (b : Node K) (ss : Slots K)
      → p ≤ count ss
      → Has (node b ss) ↔ (Has (branch_at b ss p) ⊎ HasBut p b ss)
  unfolding HasBut Has branch_at count
  Has-branch_at zero b ss l = ground arith
  Has-branch_at (suc p) b nil l = absurd (omega arith)
  Has-branch_at (suc p) b (slot k v c ss) l = ground (arith, Has-branch_at p c ss)

  pub Has-set_branch :
      (p : ℕ) (d b : Node K) (ss : Slots K)
      → p ≤ count ss
      → Has (node (set_branch p d b ss).0 (set_branch p d b ss).1) ↔ (Has d ⊎ HasBut p b ss)
  unfolding HasBut Has set_branch count
  Has-set_branch zero d b ss l = ground arith
  Has-set_branch (suc p) d b nil l = absurd (omega arith)
  Has-set_branch (suc p) d b (slot k v c ss) l = ground (arith, Has-set_branch p d c ss)

module _ {K : Type 0} where
  pub count-set_branch :
      (p : ℕ) (d b : Node K) (ss : Slots K) → count (set_branch p d b ss).1 ≡ count ss
  unfolding count set_branch
  count-set_branch zero d b ss = refl
  count-set_branch (suc p) d b nil = refl
  count-set_branch (suc p) d b (slot k v c ss) = omega (arith, count-set_branch p d c ss)

  pub length-keys : (ss : Slots K) → length (keys ss) ≡ count ss
  unfolding keys count
  length-keys nil = refl
  length-keys (slot k v c ss) = omega (arith, length-keys ss)

module _ {K : Type 0} (o : KeyOrder K) where
  open o use {rank}

  -- The branches satisfy `P` between the keys on their two sides.
  unfoldable pub Slotted : (ℕ → ℕ → Node K → Type 0) → ℕ → ℕ → Node K → Slots K → Type 0
  Slotted P lo hi b nil = P lo hi b
  Slotted P lo hi b (slot k v c ss) =
      P lo (rank k) b × (rank k < hi) × Slotted P (rank k + 1) hi c ss

  -- A tree of depth `d` with keys from `lo` on and below `hi`. Its root has at least `low` keys, the
  -- other nodes at least `min_count`.
  unfoldable pub IsTree : ℕ → ℕ → ℕ → ℕ → Node K → Type 0
  IsTree low zero lo hi null = lo ≤ hi
  IsTree low zero lo hi (node b ss) = ⊥
  IsTree low (suc d) lo hi null = ⊥
  IsTree low (suc d) lo hi (node b ss) =
      (low ≤ count ss) × (count ss ≤ default_max) × Slotted (IsTree min_count d) lo hi b ss

  -- Where the branches' bounds are in order, so are those of the node.
  pub slots_le :
      (P : ℕ → ℕ → Node K → Type 0)
      → ((lo hi : ℕ) (b : Node K) → P lo hi b → lo ≤ hi)
      → (lo hi : ℕ) (b : Node K) (ss : Slots K) → Slotted P lo hi b ss
      → lo ≤ hi
  unfolding Slotted
  slots_le P le lo hi b nil s = le lo hi b s
  slots_le P le lo hi b (slot k v c ss) (s, lt, rest) = omega (arith, le lo (rank k) b s, lt)

  pub tree_le : (low d lo hi : ℕ) (t : Node K) → IsTree low d lo hi t → lo ≤ hi
  unfolding IsTree
  tree_le low zero lo hi null h = h
  tree_le low zero lo hi (node b ss) h = absurd h
  tree_le low (suc d) lo hi null h = absurd h
  tree_le low (suc d) lo hi (node b ss) (l, u, s) =
      slots_le (IsTree min_count d) (tree_le min_count d) lo hi b ss s

  -- The bounds of the branch at a position.
  unfoldable pub lo_at : ℕ → ℕ → Slots K → ℕ
  lo_at zero lo ss = lo
  lo_at (suc p) lo nil = lo
  lo_at (suc p) lo (slot k v c ss) = lo_at p (rank k + 1) ss

  unfoldable pub hi_at : ℕ → ℕ → Slots K → ℕ
  hi_at p hi nil = hi
  hi_at zero hi (slot k v c ss) = rank k
  hi_at (suc p) hi (slot k v c ss) = hi_at p hi ss

  module _ (P : ℕ → ℕ → Node K → Type 0) where
    pub Slotted-branch_at :
        (p lo hi : ℕ) (b : Node K) (ss : Slots K)
        → p ≤ count ss
        → Slotted P lo hi b ss
        → P (lo_at p lo ss) (hi_at p hi ss) (branch_at b ss p)
    unfolding Slotted lo_at hi_at branch_at count
    Slotted-branch_at zero lo hi b nil l s = s
    Slotted-branch_at zero lo hi b (slot k v c ss) l (s, lt, rest) = s
    Slotted-branch_at (suc p) lo hi b nil l s = absurd (omega arith)
    Slotted-branch_at (suc p) lo hi b (slot k v c ss) l (s, lt, rest) =
        Slotted-branch_at p (rank k + 1) hi c ss (omega arith) rest

    pub Slotted-set_branch :
        (p lo hi : ℕ) (d b : Node K) (ss : Slots K)
        → p ≤ count ss
        → Slotted P lo hi b ss
        → P (lo_at p lo ss) (hi_at p hi ss) d
        → Slotted P lo hi (set_branch p d b ss).0 (set_branch p d b ss).1
    unfolding Slotted lo_at hi_at set_branch count
    Slotted-set_branch zero lo hi d b nil l s h = h
    Slotted-set_branch zero lo hi d b (slot k v c ss) l (s, lt, rest) h = (h, lt, rest)
    Slotted-set_branch (suc p) lo hi d b nil l s h = absurd (omega arith)
    Slotted-set_branch (suc p) lo hi d b (slot k v c ss) l (s, lt, rest) h =
        (s, lt, Slotted-set_branch p (rank k + 1) hi d c ss (omega arith) rest h)

    -- The two halves of a branch, with the entry between them, in its place.
    pub Slotted-push_in :
        (p lo hi : ℕ) (l : Node K) (k : K) (v : ℕ) (r b : Node K) (ss : Slots K)
        → p ≤ count ss
        → Slotted P lo hi b ss
        → P (lo_at p lo ss) (rank k) l
        → rank k < hi_at p hi ss
        → P (rank k + 1) (hi_at p hi ss) r
        → Slotted P lo hi (set_branch p l b ss).0 (push_in p k v r (set_branch p l b ss).1)
    unfolding Slotted lo_at hi_at set_branch push_in count
    Slotted-push_in zero lo hi l k v r b nil n s hl lt hr = (hl, lt, hr)
    Slotted-push_in zero lo hi l k v r b (slot k' v' c ss) n (s, lt', rest) hl lt hr =
        (hl, omega (arith, lt, lt'), (hr, lt', rest))
    Slotted-push_in (suc p) lo hi l k v r b nil n s hl lt hr = absurd (omega arith)
    Slotted-push_in (suc p) lo hi l k v r b (slot k' v' c ss) n (s, lt', rest) hl lt hr =
        (s, lt', Slotted-push_in p (rank k' + 1) hi l k v r c ss (omega arith) rest hl lt hr)

    pub Slotted-Increasing :
        ((lo hi : ℕ) (b : Node K) → P lo hi b → lo ≤ hi)
        → (lo hi : ℕ) (b : Node K) (ss : Slots K) → Slotted P lo hi b ss
        → Increasing o lo (keys ss)
    unfolding Slotted keys
    Slotted-Increasing le lo hi b nil s = tt
    Slotted-Increasing le lo hi b (slot k v c ss) (s, lt, rest) =
        (le lo (rank k) b s, Slotted-Increasing le (rank k + 1) hi c ss rest)

  -- The bounds of the branch to search, where the key is not in the node.
  module _ (target : K) where
    pub bounds_at :
        (lo hi : ℕ) (ss : Slots K)
        → lo ≤ rank target
        → rank target < hi
        → has_key o target (keys ss) ≡ false
        → (lo_at (rank_in o target (keys ss)) lo ss ≤ rank target)
          × (rank target < hi_at (rank_in o target (keys ss)) hi ss)
    unfolding lo_at hi_at has_key rank_in keys
    bounds_at lo hi nil l u h = (l, u)
    bounds_at lo hi (slot k v c ss) l u h = elim (dec_lt (rank target) (rank k)) [
      | yes before ↦
          let e : rank_in o target (keys (slot k v c ss)) ≡ 0 = ground (arith, before) in
          rw e (l, before)
      | no behind ↦
          let e : rank_in o target (keys (slot k v c ss)) ≡ suc (rank_in o target (keys ss)) =
            ground (arith, behind) in
          rw e (bounds_at (rank k + 1) hi ss (ground (arith, behind, h)) u (ground (arith, h)))
    ]
