-- ===== src/Index/Replaced.antt =====
-- A key found in a node of src/sasindexnode.cpp: taken out of a leaf, or replaced in an inner node.
use sphde.Base.{
  ℕ, zero, suc, ◌+◌, ◌≤◌, ◌<◌, ◌≡◌, ◌≢◌, ◌⊎◌, ◌↔◌, inl, inr, refl, sym, ap, ◌∙◌, true, arith,
  ℕ_discrete,
}
use sphde.Index.Nodes.{
  Node, null, node, Slots, nil, slot, min_count, keys, count, branch_at, set_branch,
}
use sphde.Index.Order.{KeyOrder, Increasing, rank_in, rank_in-above, has_key, has_key-rank_in}
use sphde.Index.Shape.{Has, HasIn, HasBut, Slotted, IsTree, hi_at, lo_at, Slotted-branch_at}
use sphde.Index.Entries.{Bounded, slots_bounds, IsTree-Bounded}
use sphde.Index.Found.{place}
use sphde.Index.Restored.{Holed}
use sphde.Index.Delete.{remove, set_entry}

pub positive : (n : ℕ) → 1 ≤ n → (q : ℕ) × (n ≡ suc q)
positive zero l = absurd (omega arith)
positive (suc q) l = (q, refl)

module _ {K : Type 0} (o : KeyOrder K) (target : K) where
  open o use {rank}

  -- Where a key that is there stands: first, or in the slots behind.
  pub found_in_slot :
      (k : K) (v : ℕ) (c : Node K) (ss : Slots K) (lo : ℕ)
      → Increasing o lo (keys (slot k v c ss))
      → has_key o target (keys (slot k v c ss)) ≡ true
      → ((rank k ≡ rank target) × (place o target (slot k v c ss) ≡ 1))
        ⊎ ((rank k < rank target)
            × (has_key o target (keys ss) ≡ true)
            × ((q : ℕ) × (place o target ss ≡ suc q)
                × (place o target (slot k v c ss) ≡ suc (suc q))))
  unfolding keys has_key rank_in
  found_in_slot k v c ss lo inc h = elim (ℕ_discrete (rank k) (rank target)) [
    | yes here ↦ inl (
      here,
      ground
          (arith, here, rank_in-above o target (keys ss) (rank k + 1) (omega (arith, here)) inc.1),
    )
    | no later ↦
        let there : has_key o target (keys ss) ≡ true = ground (arith, h, later) in
        let one = has_key-rank_in o target (keys ss) (rank k + 1) inc.1 there in
        let below : rank k < rank target =
          ground (arith, later, one, rank_in-above o target (keys ss) (rank k + 1)) in
        let (q, e) = positive (place o target ss) one in
        inr (below, there, (q, e, ground (arith, e, below)))
  ]

  -- The branch behind a key that is there begins above it.
  pub lo_at-place :
      (lo lo' : ℕ) (ss : Slots K)
      → Increasing o lo (keys ss)
      → has_key o target (keys ss) ≡ true
      → (p : ℕ) → place o target ss ≡ p
      → lo_at o p lo' ss ≡ rank target + 1
  unfolding lo_at keys has_key
  lo_at-place lo lo' nil inc h p e = absurd (ground (arith, h))
  lo_at-place lo lo' (slot k v c ss) inc h p e = elim (found_in_slot k v c ss lo inc h) [
    | inl (here, e') ↦ rw (sym e ∙ e') (ap (λ n. n + 1) here)
    | inr (below, there, (q, e', e'')) ↦
        rw (sym e ∙ e'') (lo_at-place (rank k + 1) (rank k + 1) ss inc.1 there (suc q) e')
  ]

  -- The branch before it ends there.
  pub hi_at-place :
      (lo hi : ℕ) (ss : Slots K)
      → Increasing o lo (keys ss)
      → has_key o target (keys ss) ≡ true
      → (p : ℕ) → place o target ss ≡ suc p
      → hi_at o p hi ss ≡ rank target
  unfolding hi_at keys has_key
  hi_at-place lo hi nil inc h p e = absurd (ground (arith, h))
  hi_at-place lo hi (slot k v c ss) inc h zero e = elim (found_in_slot k v c ss lo inc h) [
    | inl (here, e') ↦ here
    | inr (below, there, (q, e', e'')) ↦ absurd (omega (arith, e, e''))
  ]
  hi_at-place lo hi (slot k v c ss) inc h (suc p) e = elim (found_in_slot k v c ss lo inc h) [
    | inl (here, e') ↦ absurd (omega (arith, e, e'))
    | inr (below, there, (q, e', e'')) ↦
        hi_at-place (rank k + 1) hi ss inc.1 there p (omega (arith, e, e', e''))
  ]

  not_in_leaf :
      (low lo hi : ℕ) (b : Node K) → IsTree o low 0 lo hi b → (x : K) (w : ℕ) → Has x w b → ⊥
  unfolding IsTree Has
  not_in_leaf low lo hi null h x w e = e
  not_in_leaf low lo hi (node b ss) h x w e = h

  leaf_drop :
      (lo lo' n hi : ℕ) (b c : Node K) (ss : Slots K)
      → IsTree o min_count 0 lo n b
      → n ≤ lo'
      → Slotted o (IsTree o min_count 0) lo' hi c ss
      → Slotted o (IsTree o min_count 0) lo hi b ss
  unfolding IsTree Slotted
  leaf_drop lo lo' n hi (node b ss') c ss h le s = absurd h
  leaf_drop lo lo' n hi null (node c ss') nil h le s = absurd s
  leaf_drop lo lo' n hi null null nil h le s = omega (arith, h, le, s)
  leaf_drop lo lo' n hi null (node c ss') (slot k v d ss) h le (s, lt, rest) = absurd s
  leaf_drop lo lo' n hi null null (slot k v d ss) h le (s, lt, rest) =
      (omega (arith, h, le, s), lt, rest)

  -- The key taken out of a leaf.
  pub remove_lem :
      (lo hi p : ℕ) (b : Node K) (ss : Slots K)
      → Slotted o (IsTree o min_count 0) lo hi b ss
      → Increasing o lo (keys ss)
      → has_key o target (keys ss) ≡ true
      → place o target ss ≡ p
      → Slotted o (IsTree o min_count 0) lo hi b (remove p ss)
        × (count ss ≡ count (remove p ss) + 1)
        × ((x : K) (w : ℕ)
            → Has x w (node b (remove p ss)) ↔ (Has x w (node b ss) × (rank x ≢ rank target)))
  unfolding Slotted remove count Has HasIn keys has_key lo_at branch_at
  remove_lem lo hi p b nil s inc h e = absurd (ground (arith, h))
  remove_lem lo hi p b (slot k v c ss) (s, lt, rest) inc h e =
      elim (found_in_slot k v c ss lo inc h) [
        | inl (here, e') ↦ rw (sym e ∙ e') (
          leaf_drop lo (rank k + 1) (rank k) hi b c ss s (omega arith) rest,
          refl,
          λ x w. grind (
            arith,
            here,
            not_in_leaf min_count lo (rank k) b s x w,
            not_in_leaf min_count (rank k + 1) (hi_at o 0 hi ss) c
                (Slotted-branch_at o (IsTree o min_count 0) 0 (rank k + 1) hi c ss (omega arith)
                  rest)
                x w,
            slots_bounds o (IsTree o min_count 0) (IsTree-Bounded o min_count 0) (rank k + 1) hi c
                ss rest x w,
          ),
        )
        | inr (below, there, (q, e', e'')) ↦
            let (s', n, has) = remove_lem (rank k + 1) hi (suc q) c ss rest inc.1 there e' in
            rw (sym e ∙ e'') (
              (s, lt, s'),
              ap (λ n. n + 1) n,
              λ x w. grind (arith, below, not_in_leaf min_count lo (rank k) b s x w, has x w),
            )
      ]

  module _ (P Q : ℕ → ℕ → Node K → Type 0) (bounded : Bounded o P)
      (loosen : (lo hi hi' : ℕ) (b : Node K) → P lo hi b → hi ≤ hi' → P lo hi' b) where
    Holed-zero :
        (lo lo' hi : ℕ) (c c' : Node K) (ss : Slots K)
        → Slotted o P lo hi c ss
        → Q lo' (hi_at o 0 hi ss) c'
        → Holed o P Q 0 lo' hi c' ss
    unfolding Slotted Holed hi_at
    Holed-zero lo lo' hi c c' nil s h = h
    Holed-zero lo lo' hi c c' (slot k v d ss) (s, lt, rest) h = (h, lt, rest)

    hi_at-le :
        (lo p hi : ℕ) (b : Node K) (ss : Slots K) → Slotted o P lo hi b ss → hi_at o p hi ss ≤ hi
    unfolding Slotted hi_at
    hi_at-le lo p hi b nil s = omega arith
    hi_at-le lo zero hi b (slot k v d ss) (s, lt, rest) = omega (arith, lt)
    hi_at-le lo (suc p) hi b (slot k v d ss) (s, lt, rest) = hi_at-le (rank k + 1) p hi d ss rest

    -- A branch exchanged for one of the other kind.
    pub Slotted-Holed :
        (p lo hi : ℕ) (c b : Node K) (ss : Slots K)
        → p ≤ count ss
        → Slotted o P lo hi b ss
        → Q (lo_at o p lo ss) (hi_at o p hi ss) c
        → Holed o P Q p lo hi (set_branch p c b ss).0 (set_branch p c b ss).1
    unfolding Slotted Holed lo_at hi_at set_branch count
    Slotted-Holed zero lo hi c b ss l s h = Holed-zero lo lo hi b c ss s h
    Slotted-Holed (suc p) lo hi c b nil l s h = absurd (omega arith)
    Slotted-Holed (suc p) lo hi c b (slot k v d ss) l (s, lt, rest) h =
        (s, lt, Slotted-Holed p (rank k + 1) hi c d ss (omega arith) rest h)

    -- The key that is found gives way to one above it, and the branch behind it to another.
    pub replace_lem :
        (lo hi p : ℕ) (b : Node K) (ss : Slots K)
        → Slotted o P lo hi b ss
        → Increasing o lo (keys ss)
        → has_key o target (keys ss) ≡ true
        → place o target ss ≡ p
        → (k : K) (v : ℕ) (c : Node K) → rank target < rank k
        → rank k < hi_at o p hi ss
        → Q (rank k + 1) (hi_at o p hi ss) c
        → Holed o P Q p lo hi
            (set_branch p c b (set_entry p k v ss)).0
            (set_branch p c b (set_entry p k v ss)).1
          × ((x : K) (w : ℕ)
              → Has x w (
                  node
                    (set_branch p c b (set_entry p k v ss)).0
                    (set_branch p c b (set_entry p k v ss)).1)
                ↔ (((x ≡ k) × (w ≡ v)) ⊎ Has x w c ⊎ (HasBut x w p b ss × (rank x ≢ rank target))))
    unfolding Slotted Holed set_branch set_entry hi_at Has HasIn HasBut keys has_key
    replace_lem lo hi p b nil s inc h e k v c above below fits = absurd (ground (arith, h))
    replace_lem lo hi zero b (slot k' v' d ss) (s, lt, rest) inc h e k v c above below fits =
        elim (found_in_slot k' v' d ss lo inc h) [
          | inl (here, e') ↦ absurd (omega (arith, e, e'))
          | inr (under, there, (q, e', e'')) ↦ absurd (omega (arith, e, e''))
        ]
    replace_lem lo hi (suc zero) b (slot k' v' d ss) (s, lt, rest) inc h e k v c above below fits =
        elim (found_in_slot k' v' d ss lo inc h) [
          | inl (here, e') ↦ (
            (
              loosen lo (rank k') (rank k) b s (omega (arith, here, above)),
              omega (arith, below, hi_at-le (rank k' + 1) 0 hi d ss rest),
              Holed-zero (rank k' + 1) (rank k + 1) hi d c ss rest fits,
            ),
            λ x w. grind (
              arith,
              here,
              (bounded lo (rank k') b s).1 x w,
              slots_bounds o P bounded (rank k' + 1) hi d ss rest x w,
            ),
          )
          | inr (under, there, (q, e', e'')) ↦ absurd (omega (arith, e, e''))
        ]
    replace_lem lo hi (suc (suc p)) b (slot k' v' d ss) (s, lt, rest) inc h e k v c above below
          fits =
        elim (found_in_slot k' v' d ss lo inc h) [
          | inl (here, e') ↦ absurd (omega (arith, e, e'))
          | inr (under, there, (q, e', e'')) ↦
              let (holed, has) =
                replace_lem (rank k' + 1) hi (suc p) d ss rest inc.1 there
                  (omega (arith, e, e', e'')) k v c above below fits in
              (
                (s, lt, holed),
                λ x w. grind (arith, under, (bounded lo (rank k') b s).1 x w, has x w),
              )
        ]
