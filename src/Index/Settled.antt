-- ===== src/Index/Settled.antt =====
-- A node of src/sasindexnode.cpp after a deletion in one of its branches, as the code leaves it.
use sphde.Base.{
  ℕ, zero, suc, ◌+◌, ◌-◌, ◌≤◌, ◌≡◌, ◌⊎◌, ◌↔◌, inl, inr, refl, true, false, ltb, arith, dec_lt,
}
use sphde.Index.Nodes.{
  Node, null, node, Slots, nil, slot, default_max, min_count, count, branch_at, is_null,
}
use sphde.Index.Order.{KeyOrder}
use sphde.Index.Shape.{Has, Slotted, IsTree}
use sphde.Index.Restored.{Holed, Restored}
use sphde.Index.Balance.{restore_lem}
use sphde.Index.Delete.{count_of, restore_if_small}

module _ {K : Type 0} (o : KeyOrder K) where
  open o use {rank}

  module _ (P Q : ℕ → ℕ → Node K → Type 0) where
    -- Where the branch at the position satisfies the one predicate too, all do.
    Holed-Slotted :
        (p lo hi : ℕ) (b : Node K) (ss : Slots K)
        → Holed o P Q p lo hi b ss
        → ((lo hi : ℕ) → Q lo hi (branch_at b ss p) → P lo hi (branch_at b ss p))
        → Slotted o P lo hi b ss
    unfolding Holed Slotted branch_at
    Holed-Slotted zero lo hi b nil h fills = fills lo hi h
    Holed-Slotted zero lo hi b (slot k v c ss) (h, lt, rest) fills = (fills lo (rank k) h, lt, rest)
    Holed-Slotted (suc p) lo hi b nil h fills = absurd h
    Holed-Slotted (suc p) lo hi b (slot k v c ss) (s, lt, rest) fills =
        (s, lt, Holed-Slotted p (rank k + 1) hi c ss rest fills)

    pub Holed-branch_at :
        (p lo hi : ℕ) (b : Node K) (ss : Slots K)
        → Holed o P Q p lo hi b ss
        → (lo' hi' : ℕ) × Q lo' hi' (branch_at b ss p)
    unfolding Holed branch_at
    Holed-branch_at zero lo hi b nil h = (lo, hi, h)
    Holed-branch_at zero lo hi b (slot k v c ss) (h, lt, rest) = (lo, rank k, h)
    Holed-branch_at (suc p) lo hi b nil h = absurd h
    Holed-branch_at (suc p) lo hi b (slot k v c ss) (s, lt, rest) =
        Holed-branch_at p (rank k + 1) hi c ss rest

  raised_count :
      (low low' d lo hi : ℕ) (t : Node K)
      → IsTree o low d lo hi t
      → (low' ≤ count_of t) ⊎ (d ≡ 0)
      → IsTree o low' d lo hi t
  unfolding IsTree count_of
  raised_count low low' zero lo hi null h e = h
  raised_count low low' zero lo hi (node b ss) h e = absurd h
  raised_count low low' (suc d) lo hi null h e = absurd h
  raised_count low low' (suc d) lo hi (node b ss) h (inl e) = (e, h.1, h.2)
  raised_count low low' (suc d) lo hi (node b ss) h (inr e) = absurd (omega (arith, e))

  pub is_null-IsTree :
      (low d lo hi : ℕ) (t : Node K) → IsTree o low (suc d) lo hi t → is_null t ≡ false
  unfolding IsTree is_null
  is_null-IsTree low d lo hi null h = absurd h
  is_null-IsTree low d lo hi (node b ss) h = refl

  pub is_null-zero : (low lo hi : ℕ) (t : Node K) → IsTree o low zero lo hi t → is_null t ≡ true
  unfolding IsTree is_null
  is_null-zero low lo hi null h = refl
  is_null-zero low lo hi (node b ss) h = absurd h

  -- The node is well formed again, with the same entries, and has one slot less at most.
  pub restore_if_small_lem :
      (low d lo hi p : ℕ) (b : Node K) (ss : Slots K)
      → low + 1 ≤ count ss
      → count ss ≤ default_max
      → p ≤ count ss
      → Holed o (IsTree o min_count d) (IsTree o (min_count - 1) d) p lo hi b ss
      → IsTree o low (suc d) lo hi (restore_if_small p b ss)
        × ((x : K) (w : ℕ) → Has x w (restore_if_small p b ss) ↔ Has x w (node b ss))
  unfolding restore_if_small Restored IsTree
  restore_if_small_lem low zero lo hi p b ss enough most here holed =
      let (lo', hi', at) =
        Holed-branch_at (IsTree o min_count 0) (IsTree o (min_count - 1) 0) p lo hi b ss holed in
      rw (is_null-zero (min_count - 1) lo' hi' (branch_at b ss p) at) (
        (
          omega (arith, enough),
          most,
          Holed-Slotted (IsTree o min_count 0) (IsTree o (min_count - 1) 0) p lo hi b ss holed
              (λ lo hi h.
                raised_count (min_count - 1) min_count 0 lo hi (branch_at b ss p) h (inr refl)),
        ),
        λ x w. (λ h. h, λ h. h),
      )
  restore_if_small_lem low (suc d) lo hi p b ss enough most here holed =
      let P : ℕ → ℕ → Node K → Type 0 = IsTree o min_count (suc d) in
      let Q : ℕ → ℕ → Node K → Type 0 = IsTree o (min_count - 1) (suc d) in
      let (lo', hi', at) = Holed-branch_at P Q p lo hi b ss holed in
      rw (is_null-IsTree (min_count - 1) d lo' hi' (branch_at b ss p) at)
        (elim (dec_lt (count_of (branch_at b ss p)) min_count) [
          | yes small ↦
              let t : ltb (count_of (branch_at b ss p)) min_count ≡ true = ground (arith, small) in
              let (s, l, u, has) =
                restore_lem o d p lo hi b ss (omega (arith, enough)) here holed small in
              rw t ((omega (arith, l, enough), omega (arith, u, most), s), has)
          | no enough' ↦
              let t : ltb (count_of (branch_at b ss p)) min_count ≡ false =
                ground (arith, enough') in
              rw t (
                (
                  omega (arith, enough),
                  most,
                  Holed-Slotted P Q p lo hi b ss holed (λ lo hi h.
                      raised_count (min_count - 1) min_count (suc d) lo hi (branch_at b ss p) h
                        (inl (omega (arith, enough')))),
                ),
                λ x w. (λ h. h, λ h. h),
              )
        ])

  -- A branch that is not there, or as large as it must be, is left as it is.
  pub null_alone :
      (p : ℕ) (b : Node K) (ss : Slots K)
      → is_null (branch_at b ss p) ≡ true
      → restore_if_small p b ss ≡ node b ss
  unfolding restore_if_small
  null_alone p b ss e = rw e refl

  count_of-IsTree : (low d lo hi : ℕ) (t : Node K) → IsTree o low (suc d) lo hi t → low ≤ count_of t
  unfolding IsTree count_of
  count_of-IsTree low d lo hi null h = absurd h
  count_of-IsTree low d lo hi (node b ss) h = h.0

  pub left_alone :
      (d lo hi p : ℕ) (b : Node K) (ss : Slots K)
      → IsTree o min_count d lo hi (branch_at b ss p)
      → restore_if_small p b ss ≡ node b ss
  unfolding restore_if_small
  left_alone zero lo hi p b ss h = rw (is_null-zero min_count lo hi (branch_at b ss p) h) refl
  left_alone (suc d) lo hi p b ss h =
      let n = count_of-IsTree min_count d lo hi (branch_at b ss p) h in
      let t : ltb (count_of (branch_at b ss p)) min_count ≡ false = ground (arith, n) in
      rw (is_null-IsTree min_count d lo hi (branch_at b ss p) h) (rw t refl)

  pub leaf_branch :
      (lo hi p : ℕ) (b : Node K) (ss : Slots K)
      → Slotted o (IsTree o min_count 0) lo hi b ss
      → is_null (branch_at b ss p) ≡ true
  unfolding Slotted branch_at
  leaf_branch lo hi zero b nil s = is_null-zero min_count lo hi b s
  leaf_branch lo hi zero b (slot k v c ss) (s, lt, rest) = is_null-zero min_count lo (rank k) b s
  leaf_branch lo hi (suc p) b nil s = is_null-zero min_count lo hi b s
  leaf_branch lo hi (suc p) b (slot k v c ss) (s, lt, rest) =
      leaf_branch (rank k + 1) hi p c ss rest
