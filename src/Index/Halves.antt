-- ===== src/Index/Halves.antt =====
-- A split node of src/sasindexnode.cpp, as the parts of the node that a push into it would give.
use sphde.Base.{
  ℕ, zero, suc, ◌+◌, ◌-◌, ◌≤◌, ◌<◌, ◌≡◌, refl, ap, true, false, leb, leb_below, leb_above, some,
  arith, dec_le,
}
use sphde.Index.Nodes.{Node, node, Slots, nil, slot, default_max, min_count, count}
use sphde.Index.Insert.{first, behind, push_in, pop_last, up, halves, split}
use sphde.Index.Delete.{join}

module _ {K : Type 0} where
  pub count-push_in :
      (p : ℕ) (k : K) (v : ℕ) (r : Node K) (ss : Slots K)
      → p ≤ count ss
      → count (push_in p k v r ss) ≡ count ss + 1
  unfolding count push_in
  count-push_in zero k v r ss l = refl
  count-push_in (suc p) k v r nil l = absurd (omega arith)
  count-push_in (suc p) k v r (slot k' v' c ss) l =
      ap (λ n. n + 1) (count-push_in p k v r ss (omega arith))

  pub count-join :
      (ls : Slots K) (k : K) (v : ℕ) (c : Node K) (rs : Slots K)
      → count (join ls k v c rs) ≡ count ls + 1 + count rs
  unfolding count join
  count-join nil k v c rs = omega arith
  count-join (slot k' v' d ls) k v c rs = omega (arith, count-join ls k v c rs)

  -- The last of the first slots, with those before and behind it.
  pop_last-first :
      (m : ℕ) (ss : Slots K)
      → m < count ss
      → (init : Slots K) × (k : K) × (v : ℕ) × (c : Node K) × (pop_last (first (suc m) ss)
          ≡ some (init, k, v, c))
        × (join init k v c (behind (suc m) ss) ≡ ss)
        × (count init ≡ m)
  unfolding count first behind pop_last join
  pop_last-first m nil l = absurd (omega arith)
  pop_last-first zero (slot k v c ss) l = (nil, k, v, c, refl, refl, refl)
  pop_last-first (suc m) (slot k v c ss) l =
      let (init, k', v', c', e, j, n) = pop_last-first m ss (omega arith) in
      (slot k v c init, k', v', c', rw e refl, ap (slot k v c) j, omega (arith, n))

  module _ (key : K) (val : ℕ) (right : Node K) where
    -- A push in the first half, or in the second, is a push in the whole.
    push_in-first :
        (p m : ℕ) (ss : Slots K)
        → p ≤ m
        → m ≤ count ss
        → (push_in p key val right (first m ss) ≡ first (suc m) (push_in p key val right ss))
          × (behind m ss ≡ behind (suc m) (push_in p key val right ss))
    unfolding count first behind push_in
    push_in-first zero m ss l u = (refl, refl)
    push_in-first (suc p) zero ss l u = absurd (omega arith)
    push_in-first (suc p) (suc m) nil l u = absurd (omega arith)
    push_in-first (suc p) (suc m) (slot k v c ss) l u =
        let (f, b) = push_in-first p m ss (omega arith) (omega arith) in (ap (slot k v c) f, b)

    push_in-behind :
        (p m q : ℕ) (ss : Slots K)
        → q + m ≡ p
        → p ≤ count ss
        → (first m ss ≡ first m (push_in p key val right ss))
          × (push_in q key val right (behind m ss) ≡ behind m (push_in p key val right ss))
    unfolding count first behind push_in
    push_in-behind p zero q ss e u =
        let same : q ≡ p = omega (arith, e) in (refl, ap (λ n. push_in n key val right ss) same)
    push_in-behind zero (suc m) q ss e u = absurd (omega (arith, e))
    push_in-behind (suc p) (suc m) q nil e u = absurd (omega arith)
    push_in-behind (suc p) (suc m) q (slot k v c ss) e u =
        let (f, b) = push_in-behind p m q ss (omega (arith, e)) (omega arith) in
        (ap (slot k v c) f, b)

    halves_lem :
        (ss : Slots K) (pos : ℕ)
        → pos ≤ count ss
        → count ss ≡ default_max
        → halves ss key val right pos
          ≡ (first 32 (push_in pos key val right ss), behind 32 (push_in pos key val right ss))
    unfolding halves
    halves_lem ss pos l full = elim (dec_le pos 31) [
      | yes low ↦
          let (f, r) = push_in-first pos 31 ss low (omega (arith, full)) in
          let t : leb pos min_count ≡ true = leb_below pos min_count low in
          rw (t, halves) (λ i. (f i, r i))
      | no high ↦
          let (f, r) = push_in-behind pos 32 (pos - 32) ss (omega (arith, high)) l in
          let t : leb pos min_count ≡ false = leb_above pos min_count (omega (arith, high)) in
          rw (t, halves) (λ i. (f i, r i))
    ]

    split-pop_last :
        (b : Node K) (ss : Slots K) (pos : ℕ)
        → pos ≤ count ss
        → count ss ≡ default_max
        → (init : Slots K) (k : K) (v : ℕ) (c : Node K)
        → pop_last (first 32 (push_in pos key val right ss)) ≡ some (init, k, v, c)
        → split b ss key val right pos
          ≡ up (node b init) k v (node c (behind 32 (push_in pos key val right ss)))
    unfolding split
    split-pop_last b ss pos l full init k v c e =
        let both = halves_lem ss pos l full in
        rw (both, split) (rw e (ap (λ h. up (node b init) k v (node c h.1)) both))

    -- The two halves with the entry between them are the slots after the push.
    pub split_lem :
        (b : Node K) (ss : Slots K) (pos : ℕ)
        → pos ≤ count ss
        → count ss ≡ default_max
        → (init : Slots K) × (k : K) × (v : ℕ) × (c : Node K) × (yr : Slots K) × (split b ss key val
              right pos
            ≡ up (node b init) k v (node c yr))
          × (join init k v c yr ≡ push_in pos key val right ss)
          × (count init ≡ min_count)
          × (min_count ≤ count yr)
          × (count yr ≤ default_max)
    split_lem b ss pos l full =
        let n = count-push_in pos key val right ss l in
        let (init, k, v, c, e, j, i) =
          pop_last-first min_count (push_in pos key val right ss) (omega (arith, n, full)) in
        let whole = count-join init k v c (behind 32 (push_in pos key val right ss)) in
        let total : count (join init k v c (behind 32 (push_in pos key val right ss))) ≡ 64 =
          rw j (omega (arith, n, full)) in
        (
          init,
          k,
          v,
          c,
          behind 32 (push_in pos key val right ss),
          split-pop_last b ss pos l full init k v c e,
          j,
          i,
          omega (arith, whole, total, i),
          omega (arith, whole, total, i),
        )
