-- ===== src/Index/Pairs.antt =====
-- Two branches of a node of src/sasindexnode.cpp with the entry between them: combined, or evened out
-- by one entry.
use mathlib.Core.Path.{subst}
use sphde.Base.{ℕ, suc, ◌+◌, ◌≤◌, ◌<◌, ◌≡◌, ◌⊎◌, ◌↔◌, refl, sym, ap, some, arith}
use sphde.Index.Nodes.{Node, node, Slots, nil, slot, default_max, min_count, count}
use sphde.Index.Order.{KeyOrder}
use sphde.Index.Shape.{Has, HasIn, Slotted, IsTree, tree_le}
use sphde.Index.Insert.{pop_last}
use sphde.Index.Joined.{Has-join, Slotted-join}
use sphde.Index.Halves.{count-join}
use sphde.Index.Delete.{Pair, joined, kept, join, combine, move_left, move_right}

module _ {K : Type 0} where
  pop_last_lem :
      (ss : Slots K)
      → 1 ≤ count ss
      → (init : Slots K) × (k : K) × (v : ℕ) × (c : Node K) × (pop_last ss ≡ some (init, k, v, c))
        × (join init k v c nil ≡ ss)
  unfolding count pop_last join
  pop_last_lem nil l = absurd (omega arith)
  pop_last_lem (slot k v c nil) l = (nil, k, v, c, refl, refl)
  pop_last_lem (slot k v c (slot k' v' c' ss)) l =
      let (init, k'', v'', c'', e, j) = pop_last_lem (slot k' v' c' ss) (omega arith) in
      (slot k v c init, k'', v'', c'', rw e refl, ap (slot k v c) j)

module _ {K : Type 0} (o : KeyOrder K) where
  open o use {rank}

  -- The entries of two branches and the entry between them.
  abbrev pub OfPair : Node K → K → ℕ → Node K → K → ℕ → Type 0
  OfPair l k v r x w = Has x w l ⊎ ((x ≡ k) × (w ≡ v)) ⊎ Has x w r

  -- What is left of the pair is well formed and has the same entries.
  unfoldable pub PairFits : ℕ → ℕ → ℕ → (K → ℕ → Type 0) → Pair K → Type 0
  PairFits d lo hi E (joined m) =
      IsTree o min_count d lo hi m × ((x : K) (w : ℕ) → Has x w m ↔ E x w)
  PairFits d lo hi E (kept l k v r) =
      IsTree o min_count d lo (rank k) l
      × (rank k < hi)
      × IsTree o min_count d (rank k + 1) hi r
      × ((x : K) (w : ℕ) → OfPair l k v r x w ↔ E x w)

  pair_entries :
      (x : K) (w : ℕ) (l : Node K) (lk : K) (lv : ℕ) (lc : Node K) (k : K) (v : ℕ) (rb : Node K)
      (rs : Slots K) (whole : Node K)
      → Has x w whole ↔ OfPair l lk lv (node lc nil) x w
      → OfPair l lk lv (node lc (slot k v rb rs)) x w ↔ OfPair whole k v (node rb rs) x w
  unfolding Has HasIn
  pair_entries x w l lk lv lc k v rb rs whole e = grind (arith, e)

  module _ (d lo hi lower lower' : ℕ) (lb : Node K) (ls : Slots K) (k : K) (v : ℕ) (rb : Node K)
      (rs : Slots K) (left : IsTree o lower (suc d) lo (rank k) (node lb ls)) (lt : rank k < hi)
      (right : IsTree o lower' (suc d) (rank k + 1) hi (node rb rs)) where
    abbrev P : ℕ → ℕ → Node K → Type 0
    P = IsTree o min_count d

    abbrev E : K → ℕ → Type 0
    E = OfPair (node lb ls) k v (node rb rs)

    -- Two branches that fit in one.
    pub combine_lem :
        min_count ≤ count ls + 1 + count rs
        → count ls + 1 + count rs ≤ default_max
        → PairFits (suc d) lo hi E (combine (node lb ls) k v (node rb rs))
    unfolding PairFits combine IsTree
    combine_lem enough most =
        let n = count-join ls k v rb rs in
        (
          (
            omega (arith, n, enough),
            omega (arith, n, most),
            (Slotted-join o P (tree_le o min_count d) lo hi lb ls k v rb rs).1
                (left.2, lt, right.2),
          ),
          λ x w. Has-join x w lb ls k v rb rs,
        )

    -- A left branch that has a slot to spare.
    pub move_right_lem :
        min_count < count ls
        → min_count ≤ count rs + 1
        → count rs < default_max
        → PairFits (suc d) lo hi E (move_right (node lb ls) k v (node rb rs))
    unfolding IsTree Slotted count PairFits move_right
    move_right_lem spare enough most =
        let (init, lk, lv, lc, e, j) = pop_last_lem ls (omega (arith, spare)) in
        let n : count ls ≡ count init + 1 =
          rw (sym j) (omega (arith, count-join init lk lv lc nil)) in
        let (before, lk_lt, after) =
          (Slotted-join o P (tree_le o min_count d) lo (rank k) lb init lk lv lc nil).0
            (subst (Slotted o P lo (rank k) lb) (sym j) left.2) in
        subst (PairFits (suc d) lo hi E) (sym (moved init lk lv lc e)) (
          (omega (arith, n, spare), omega (arith, n, left.1), before),
          omega (arith, lk_lt, lt),
          (omega (arith, enough), omega (arith, most), (after, lt, right.2)),
          λ x w. entries x w init lk lv lc j,
        )
      where
        moved :
            (init : Slots K) (lk : K) (lv : ℕ) (lc : Node K)
            → pop_last ls ≡ some (init, lk, lv, lc)
            → move_right (node lb ls) k v (node rb rs)
              ≡ kept (node lb init) lk lv (node lc (slot k v rb rs))
        moved init lk lv lc e = rw (e, move_right) refl

        entries :
            (x : K) (w : ℕ) (init : Slots K) (lk : K) (lv : ℕ) (lc : Node K)
            → join init lk lv lc nil ≡ ls
            → OfPair (node lb init) lk lv (node lc (slot k v rb rs)) x w ↔ E x w
        entries x w init lk lv lc j =
            let whole : Has x w (node lb ls) ↔ OfPair (node lb init) lk lv (node lc nil) x w =
              subst (λ s. Has x w (node lb s) ↔ OfPair (node lb init) lk lv (node lc nil) x w) j
                (Has-join x w lb init lk lv lc nil) in
            pair_entries x w (node lb init) lk lv lc k v rb rs (node lb ls) whole

  -- A right branch that has a slot to spare.
  pub move_left_lem :
      (d lo hi lower lower' : ℕ) (lb : Node K) (ls : Slots K) (k : K) (v : ℕ) (rb : Node K)
      (rs : Slots K)
      → IsTree o lower (suc d) lo (rank k) (node lb ls)
      → rank k < hi
      → IsTree o lower' (suc d) (rank k + 1) hi (node rb rs)
      → min_count ≤ count ls + 1
      → count ls < default_max
      → min_count < count rs
      → PairFits
          (suc d)
          lo
          hi
          (OfPair (node lb ls) k v (node rb rs))
          (move_left (node lb ls) k v (node rb rs))
  unfolding IsTree Slotted count PairFits move_left Has HasIn
  move_left_lem d lo hi lower lower' lb ls k v rb nil left lt right enough most spare =
      absurd (omega (arith, spare))
  move_left_lem d lo hi lower lower' lb ls k v rb (slot rk rv rc rs) left lt
        (_, fits, (first, rk_lt, rest)) enough most spare =
      let P : ℕ → ℕ → Node K → Type 0 = IsTree o min_count d in
      let le = tree_le o min_count d in
      let n = count-join ls k v rb nil in
      let apart = le (rank k + 1) (rank rk) rb first in
      (
        (
          omega (arith, n, enough),
          omega (arith, n, most),
          (Slotted-join o P le lo (rank rk) lb ls k v rb nil).1
              (left.2, omega (arith, apart), first),
        ),
        rk_lt,
        (omega (arith, spare), omega (arith, fits), rest),
        λ x w. grind (arith, Has-join x w lb ls k v rb nil),
      )
