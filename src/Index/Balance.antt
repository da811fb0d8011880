-- ===== src/Index/Balance.antt =====
-- The balance of a node of src/sasindexnode.cpp after its branch at a position lost an entry.
use sphde.Base.{ℕ, zero, suc, ◌+◌, ◌-◌, ◌≤◌, ◌<◌, ◌≡◌, true, false, ltb, arith, dec_lt}
use sphde.Index.Nodes.{Node, null, node, Slots, nil, slot, default_max, min_count, count, branch_at}
use sphde.Index.Order.{KeyOrder}
use sphde.Index.Shape.{Has, Slotted, IsTree, tree_le}
use sphde.Index.Pairs.{OfPair, PairFits, combine_lem, move_left_lem, move_right_lem}
use sphde.Index.Restored.{Holed, Restored, AtPair, update_pair_lem}
use sphde.Index.Delete.{combine, move_left, move_right, count_of, can_give, restore}

module _ {K : Type 0} (o : KeyOrder K) where
  open o use {rank}

  module _ (d lo hi lower lower' : ℕ) (k : K) (v : ℕ) where
    -- The three changes of a pair of branches, one of which is short of an entry.
    combine-fits :
        (l r : Node K)
        → IsTree o lower (suc d) lo (rank k) l
        → rank k < hi
        → IsTree o lower' (suc d) (rank k + 1) hi r
        → min_count ≤ lower + 1 + lower'
        → count_of l + 1 + count_of r ≤ default_max
        → PairFits o (suc d) lo hi (OfPair o l k v r) (combine l k v r)
    unfolding IsTree count_of
    combine-fits null r left lt right enough most = absurd left
    combine-fits (node lb ls) null left lt right enough most = absurd right
    combine-fits (node lb ls) (node rb rs) left lt right enough most =
        combine_lem o d lo hi lower lower' lb ls k v rb rs left lt right
          (omega (arith, enough, left.0, right.0)) most

    move_right-fits :
        (l r : Node K)
        → IsTree o lower (suc d) lo (rank k) l
        → rank k < hi
        → IsTree o lower' (suc d) (rank k + 1) hi r
        → min_count < count_of l
        → min_count ≤ lower' + 1
        → count_of r < min_count
        → PairFits o (suc d) lo hi (OfPair o l k v r) (move_right l k v r)
    unfolding IsTree count_of
    move_right-fits null r left lt right spare enough most = absurd left
    move_right-fits (node lb ls) null left lt right spare enough most = absurd right
    move_right-fits (node lb ls) (node rb rs) left lt right spare enough most =
        move_right_lem o d lo hi lower lower' lb ls k v rb rs left lt right spare
          (omega (arith, enough, right.0)) (omega (arith, most))

    move_left-fits :
        (l r : Node K)
        → IsTree o lower (suc d) lo (rank k) l
        → rank k < hi
        → IsTree o lower' (suc d) (rank k + 1) hi r
        → min_count < count_of r
        → min_count ≤ lower + 1
        → count_of l < min_count
        → PairFits o (suc d) lo hi (OfPair o l k v r) (move_left l k v r)
    unfolding IsTree count_of
    move_left-fits null r left lt right spare enough most = absurd left
    move_left-fits (node lb ls) null left lt right spare enough most = absurd right
    move_left-fits (node lb ls) (node rb rs) left lt right spare enough most =
        move_left_lem o d lo hi lower lower' lb ls k v rb rs left lt right
          (omega (arith, enough, left.0)) (omega (arith, most)) spare

  module _ (P : ℕ → ℕ → Node K → Type 0) where
    Slotted-Holed :
        (lo hi : ℕ) (b : Node K) (ss : Slots K)
        → Slotted o P lo hi b ss
        → Holed o P P zero lo hi b ss
    unfolding Slotted Holed
    Slotted-Holed lo hi b nil s = s
    Slotted-Holed lo hi b (slot k v c ss) s = s

  module _ (d : ℕ) where
    abbrev P : ℕ → ℕ → Node K → Type 0
    P = IsTree o min_count (suc d)

    -- A branch that is short of an entry, one less than the least count.
    abbrev Short : ℕ → ℕ → Node K → Type 0
    Short = IsTree o (min_count - 1) (suc d)

    -- The short branch is on the right of the separator before it, and on the left of that behind it.
    Holed-before :
        (p lo hi : ℕ) (b : Node K) (ss : Slots K)
        → Holed o P Short (suc p) lo hi b ss
        → AtPair o (suc d) P Short p lo hi b ss
    unfolding Holed AtPair
    Holed-before p lo hi b nil h = absurd h
    Holed-before zero lo hi b (slot k v c ss) h = h
    Holed-before (suc p) lo hi b (slot k v c ss) (s, lt, rest) =
        (s, lt, Holed-before p (rank k + 1) hi c ss rest)

    Holed-behind :
        (p lo hi : ℕ) (b : Node K) (ss : Slots K)
        → p < count ss
        → Holed o P Short p lo hi b ss
        → AtPair o (suc d) Short P p lo hi b ss
    unfolding Holed AtPair count
    Holed-behind p lo hi b nil l h = absurd (omega (arith, l))
    Holed-behind zero lo hi b (slot k v c ss) l (s, lt, rest) =
        (s, lt, Slotted-Holed P (rank k + 1) hi c ss rest)
    Holed-behind (suc p) lo hi b (slot k v c ss) l (s, lt, rest) =
        (s, lt, Holed-behind p (rank k + 1) hi c ss (omega (arith, l)) rest)

    -- Which pair of branches a restoration changes, and how, keeps the node well formed.
    pub restore_lem :
        (p lo hi : ℕ) (b : Node K) (ss : Slots K)
        → 1 ≤ count ss
        → p ≤ count ss
        → Holed o P Short p lo hi b ss
        → count_of (branch_at b ss p) < min_count
        → Restored o (suc d) lo hi (count ss) (λ x w. Has x w (node b ss)) (restore p b ss)
    unfolding restore can_give
    restore_lem zero lo hi b ss some_key here holed small =
        let at = Holed-behind zero lo hi b ss some_key holed in
        elim (dec_lt min_count (count_of (branch_at b ss 1))) [
          | yes spare ↦
              let t : ltb min_count (count_of (branch_at b ss 1)) ≡ true = ground (arith, spare) in
              rw t (
                update_pair_lem o (suc d) Short P move_left (tree_le o min_count (suc d)) zero lo hi
                  b ss at
                  (λ lo hi k v left lt right.
                    move_left-fits d lo hi (min_count - 1) min_count k v (branch_at b ss 0)
                      (branch_at b ss 1) left lt right spare (omega arith) small))
          | no tight ↦
              let t : ltb min_count (count_of (branch_at b ss 1)) ≡ false = ground (arith, tight) in
              rw t (
                update_pair_lem o (suc d) Short P combine (tree_le o min_count (suc d)) zero lo hi b
                  ss at
                  (λ lo hi k v left lt right.
                    combine-fits d lo hi (min_count - 1) min_count k v (branch_at b ss 0)
                      (branch_at b ss 1) left lt right (omega arith) (omega (arith, small, tight))))
        ]
    restore_lem (suc p) lo hi b ss some_key here holed small =
        let at = Holed-before p lo hi b ss holed in
        let own : ltb min_count (count_of (branch_at b ss (suc p))) ≡ false =
          ground (arith, small) in
        elim (dec_lt min_count (count_of (branch_at b ss p))) [
          | yes spare ↦
              let t : ltb min_count (count_of (branch_at b ss p)) ≡ true = ground (arith, spare) in
              rw t (
                update_pair_lem o (suc d) P Short move_right (tree_le o (min_count - 1) (suc d)) p
                  lo hi b ss at
                  (λ lo hi k v left lt right.
                    move_right-fits d lo hi min_count (min_count - 1) k v (branch_at b ss p)
                      (branch_at b ss (suc p)) left lt right spare (omega arith) small))
          | no tight ↦
              let t : ltb min_count (count_of (branch_at b ss p)) ≡ false = ground (arith, tight) in
              let joins =
                update_pair_lem o (suc d) P Short combine (tree_le o (min_count - 1) (suc d)) p lo
                  hi b ss at
                  (λ lo hi k v left lt right.
                    combine-fits d lo hi min_count (min_count - 1) k v (branch_at b ss p)
                      (branch_at b ss (suc p)) left lt right (omega arith)
                      (omega (arith, small, tight))) in
              rw t (
                rw own (elim (dec_lt (suc p) (count ss)) [
                  | yes inner ↦
                      let t : ltb (suc p) (count ss) ≡ true = ground (arith, inner) in
                      rw t (elim (dec_lt min_count (count_of (branch_at b ss (suc (suc p))))) [
                        | yes spare ↦
                            let t : ltb min_count (count_of (branch_at b ss (suc (suc p)))) ≡ true =
                              ground (arith, spare) in
                            rw t (
                              update_pair_lem o (suc d) Short P move_left
                                (tree_le o min_count (suc d)) (suc p) lo hi b ss
                                (Holed-behind (suc p) lo hi b ss inner holed)
                                (λ lo hi k v left lt right.
                                  move_left-fits d lo hi (min_count - 1) min_count k v
                                    (branch_at b ss (suc p)) (branch_at b ss (suc (suc p))) left lt
                                    right spare (omega arith) small))
                        | no tight' ↦
                            let t : ltb min_count (count_of (branch_at b ss (suc (suc p))))
                                ≡ false =
                              ground (arith, tight') in
                            rw t joins
                      ])
                  | no last ↦
                      let t : ltb (suc p) (count ss) ≡ false = ground (arith, last) in rw t joins
                ]))
        ]
