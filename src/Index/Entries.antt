-- ===== src/Index/Entries.antt =====
-- Where the entries of a well-formed B-tree of src/sasindexnode.cpp lie: within their bounds, on the
-- side of each key that the order says, and one for each rank.
use sphde.Base.{
  ℕ, zero, suc, ◌+◌, ◌≤◌, ◌<◌, ◌≡◌, ◌⊎◌, inl, inr, refl, sym, ap, ◌∙◌, ℕ_discrete, true, some,
  arith,
}
use sphde.Index.Nodes.{Node, null, node, Slots, nil, slot, min_count, keys}
use sphde.Index.Order.{KeyOrder, Increasing, rank_in, rank_in-above, has_key-rank_in, has_key}
use sphde.Index.Shape.{Has, HasIn, HasBut, Slotted, IsTree, lo_at, hi_at, tree_le}
use sphde.Index.Search.{entry_at}

module _ {K : Type 0} (o : KeyOrder K) where
  open o use {rank}

  -- A family of trees whose entries lie within the bounds, which are in order.
  abbrev pub Bounded : (ℕ → ℕ → Node K → Type 0) → Type 0
  Bounded P =
      (lo hi : ℕ) (b : Node K)
      → P lo hi b
      → (lo ≤ hi) × ((x : K) (v : ℕ) → Has x v b → (lo ≤ rank x) × (rank x < hi))

  pub slots_bounds :
      (P : ℕ → ℕ → Node K → Type 0)
      → Bounded P
      → (lo hi : ℕ) (b : Node K) (ss : Slots K) → Slotted o P lo hi b ss
      → (x : K) (v : ℕ) → Has x v (node b ss)
      → (lo ≤ rank x) × (rank x < hi)
  unfolding Has Slotted
  slots_bounds P bounded lo hi b nil s x v (inl h) = (bounded lo hi b s).1 x v h
  slots_bounds P bounded lo hi b nil s x v (inr h) = absurd h
  slots_bounds P bounded lo hi b (slot k w c ss) (s, lt, rest) x v (inl h) =
      omega (arith, (bounded lo (rank k) b s).1 x v h, lt)
  slots_bounds P bounded lo hi b (slot k w c ss) (s, lt, rest) x v (inr (inl (e, _))) =
      rw e (omega (arith, (bounded lo (rank k) b s).0), lt)
  slots_bounds P bounded lo hi b (slot k w c ss) (s, lt, rest) x v (inr (inr h)) =
      let (low, up) = slots_bounds P bounded (rank k + 1) hi c ss rest x v h in
      (omega (arith, (bounded lo (rank k) b s).0, low), up)

  pub IsTree-Bounded : (low d : ℕ) → Bounded (IsTree o low d)
  unfolding IsTree Has
  IsTree-Bounded low zero lo hi null h = (h, λ x v e. absurd e)
  IsTree-Bounded low zero lo hi (node b ss) h = absurd h
  IsTree-Bounded low (suc d) lo hi null h = absurd h
  IsTree-Bounded low (suc d) lo hi (node b ss) (l, u, s) = (
    tree_le o low (suc d) lo hi (node b ss) (l, u, s),
    slots_bounds (IsTree o min_count d) (IsTree-Bounded min_count d) lo hi b ss s,
  )

  lo_at_le :
      (P : ℕ → ℕ → Node K → Type 0)
      → Bounded P
      → (p lo hi : ℕ) (b : Node K) (ss : Slots K) → Slotted o P lo hi b ss
      → lo ≤ lo_at o p lo ss
  unfolding Slotted lo_at
  lo_at_le P bounded zero lo hi b ss s = omega arith
  lo_at_le P bounded (suc p) lo hi b nil s = omega arith
  lo_at_le P bounded (suc p) lo hi b (slot k w c ss) (s, lt, rest) =
      omega (arith, (bounded lo (rank k) b s).0, lo_at_le P bounded p (rank k + 1) hi c ss rest)

  -- The entries outside a branch lie outside its bounds.
  pub outside :
      (P : ℕ → ℕ → Node K → Type 0)
      → Bounded P
      → (p lo hi : ℕ) (b : Node K) (ss : Slots K) → Slotted o P lo hi b ss
      → (x : K) (v : ℕ) → HasBut x v p b ss
      → (rank x < lo_at o p lo ss) ⊎ (hi_at o p hi ss ≤ rank x)
  unfolding HasBut HasIn Has Slotted lo_at hi_at
  outside P bounded zero lo hi b nil s x v h = absurd h
  outside P bounded zero lo hi b (slot k w c ss) (s, lt, rest) x v (inl (e, _)) =
      inr (rw e (omega arith))
  outside P bounded zero lo hi b (slot k w c ss) (s, lt, rest) x v (inr h) =
      inr (omega (arith, (slots_bounds P bounded (rank k + 1) hi c ss rest x v h).0))
  outside P bounded (suc p) lo hi b nil s x v h = absurd h
  outside P bounded (suc p) lo hi b (slot k w c ss) (s, lt, rest) x v (inl h) = inl (
      omega (
        arith,
        ((bounded lo (rank k) b s).1 x v h).1,
        lo_at_le P bounded p (rank k + 1) hi c ss rest,
      ))
  outside P bounded (suc p) lo hi b (slot k w c ss) (s, lt, rest) x v (inr (inl (e, _))) =
      inl (rw e (omega (arith, lo_at_le P bounded p (rank k + 1) hi c ss rest)))
  outside P bounded (suc p) lo hi b (slot k w c ss) (s, lt, rest) x v (inr (inr h)) =
      outside P bounded p (rank k + 1) hi c ss rest x v h

  -- No two entries have keys of the same rank.
  slots_unique :
      (P : ℕ → ℕ → Node K → Type 0)
      → Bounded P
      → ((lo hi : ℕ) (b : Node K)
          → P lo hi b
          → (x y : K) (v w : ℕ) → Has x v b
          → Has y w b
          → rank x ≡ rank y
          → (x ≡ y) × (v ≡ w))
      → (lo hi : ℕ) (b : Node K) (ss : Slots K) → Slotted o P lo hi b ss
      → (x y : K) (v w : ℕ) → Has x v (node b ss)
      → Has y w (node b ss)
      → rank x ≡ rank y
      → (x ≡ y) × (v ≡ w)
  unfolding Has HasIn Slotted
  slots_unique P bounded unique lo hi b nil s x y v w (inl g) (inl h) e =
      unique lo hi b s x y v w g h e
  slots_unique P bounded unique lo hi b nil s x y v w (inr g) h e = absurd g
  slots_unique P bounded unique lo hi b nil s x y v w (inl g) (inr h) e = absurd h
  slots_unique P bounded unique lo hi b (slot k u c ss) (s, lt, rest) x y v w (inl g) (inl h) e =
      unique lo (rank k) b s x y v w g h e
  slots_unique P bounded unique lo hi b (slot k u c ss) (s, lt, rest) x y v w (inl g)
        (inr (inl (h, _))) e =
      absurd (omega (arith, ((bounded lo (rank k) b s).1 x v g).1, ap rank h, e))
  slots_unique P bounded unique lo hi b (slot k u c ss) (s, lt, rest) x y v w (inl g) (inr (inr h))
        e =
      absurd (
        omega (
          arith,
          ((bounded lo (rank k) b s).1 x v g).1,
          (slots_bounds P bounded (rank k + 1) hi c ss rest y w h).0,
          e,
        ))
  slots_unique P bounded unique lo hi b (slot k u c ss) (s, lt, rest) x y v w (inr (inl (g, _)))
        (inl h) e =
      absurd (omega (arith, ((bounded lo (rank k) b s).1 y w h).1, ap rank g, e))
  slots_unique P bounded unique lo hi b (slot k u c ss) (s, lt, rest) x y v w (inr (inl (g, g')))
        (inr (inl (h, h'))) e =
      (g ∙ sym h, g' ∙ sym h')
  slots_unique P bounded unique lo hi b (slot k u c ss) (s, lt, rest) x y v w (inr (inl (g, _)))
        (inr (inr h)) e =
      absurd
        (omega (arith, ap rank g, (slots_bounds P bounded (rank k + 1) hi c ss rest y w h).0, e))
  slots_unique P bounded unique lo hi b (slot k u c ss) (s, lt, rest) x y v w (inr (inr g)) (inl h)
        e =
      absurd (
        omega (
          arith,
          ((bounded lo (rank k) b s).1 y w h).1,
          (slots_bounds P bounded (rank k + 1) hi c ss rest x v g).0,
          e,
        ))
  slots_unique P bounded unique lo hi b (slot k u c ss) (s, lt, rest) x y v w (inr (inr g))
        (inr (inl (h, _))) e =
      absurd
        (omega (arith, ap rank h, (slots_bounds P bounded (rank k + 1) hi c ss rest x v g).0, e))
  slots_unique P bounded unique lo hi b (slot k u c ss) (s, lt, rest) x y v w (inr (inr g))
        (inr (inr h)) e =
      slots_unique P bounded unique (rank k + 1) hi c ss rest x y v w g h e

  -- A well-formed tree has one entry at most for each rank.
  pub IsTree-unique :
      (low d lo hi : ℕ) (t : Node K)
      → IsTree o low d lo hi t
      → (x y : K) (v w : ℕ) → Has x v t
      → Has y w t
      → rank x ≡ rank y
      → (x ≡ y) × (v ≡ w)
  unfolding IsTree Has
  IsTree-unique low zero lo hi null s x y v w g h e = absurd g
  IsTree-unique low zero lo hi (node b ss) s x y v w g h e = absurd s
  IsTree-unique low (suc d) lo hi null s x y v w g h e = absurd s
  IsTree-unique low (suc d) lo hi (node b ss) (_, _, s) x y v w g h e =
      slots_unique (IsTree o min_count d) (IsTree-Bounded min_count d) (IsTree-unique min_count d)
        lo hi b ss s x y v w g h e

  pub entry_at-slot :
      (k : K) (v : ℕ) (c : Node K) (ss : Slots K) (p : ℕ)
      → 1 ≤ p
      → entry_at (slot k v c ss) (suc p) ≡ entry_at ss p
  unfolding entry_at
  entry_at-slot k v c ss zero l = absurd (omega arith)
  entry_at-slot k v c ss (suc p) l = refl

  -- The entry at the position of a key that is there.
  pub entry_at-has_key :
      (target : K) (lo : ℕ) (ss : Slots K)
      → Increasing o lo (keys ss)
      → has_key o target (keys ss) ≡ true
      → (k : K) × (v : ℕ) × (entry_at ss (rank_in o target (keys ss)) ≡ some (k, v))
        × (rank k ≡ rank target)
        × HasIn k v ss
  unfolding entry_at has_key rank_in keys HasIn
  entry_at-has_key target lo nil inc h = absurd (ground (arith, h))
  entry_at-has_key target lo (slot k v c ss) inc h = elim (ℕ_discrete (rank k) (rank target)) [
    | yes here ↦
        let e : rank_in o target (keys (slot k v c ss)) ≡ 1 = ground (
          arith,
          here,
          rank_in-above o target (keys ss) (rank k + 1) (omega (arith, here)) inc.1,
        ) in
        (k, v, rw e refl, here, inl (refl, refl))
    | no later ↦
        let there : has_key o target (keys ss) ≡ true = ground (arith, h, later) in
        let (k', v', at, e, has) = entry_at-has_key target (rank k + 1) ss inc.1 there in
        let one = has_key-rank_in o target (keys ss) (rank k + 1) inc.1 there in
        let e' : rank_in o target (keys (slot k v c ss)) ≡ suc (rank_in o target (keys ss)) =
          ground (arith, one, rank_in-above o target (keys ss) (rank k + 1)) in
        (
          k',
          v',
          rw e' (entry_at-slot k v c ss (rank_in o target (keys ss)) one ∙ at),
          e,
          inr (inr has),
        )
  ]
