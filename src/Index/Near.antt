-- ===== src/Index/Near.antt =====
-- What the searches of src/sasindexnode.cpp for the nearest key find in a well-formed tree.
use mathlib.Core.Path.{subst}
use sphde.Base.{
  ℕ, zero, suc, ◌+◌, ◌≤◌, ◌≡◌, inl, inr, refl, sym, ◌∙◌, false, if◌then◌else◌, Option, none, some,
  arith, dec_lt, Bool-cases,
}
use sphde.Index.Nodes.{
  Node, null, node, Slots, nil, slot, min_count, keys, count, branch_at, is_null, descend,
  descend-node,
}
use sphde.Index.Order.{KeyOrder, rank_in, has_key}
use sphde.Index.Shape.{Has, IsTree, lo_at, hi_at}
use sphde.Index.Entries.{IsTree-Bounded}
use sphde.Index.Found.{place, place_le, slots_of, keys-Increasing, node_lem, branch_of}
use sphde.Index.Successor.{leftmost_lem}
use sphde.Index.Replaced.{lo_at-place}
use sphde.Index.Beside.{
  LeastFrom, GreatestBelow, entry_after-Behind, entry_here-Before, least_of, greatest_of,
}
use sphde.Index.Search.{or_else, entry_after, entry_here, search_gt_step, search_gt}

module _ {K : Type 0} (o : KeyOrder K) (target : K) where
  open o use {cmp, rank, cmp_lem}

  -- The bounds of the branch at the place of the key, for the keys above it, and for those not below.
  pub above_at :
      (lo hi : ℕ) (ss : Slots K)
      → lo ≤ rank target + 1
      → rank target + 1 ≤ hi
      → (lo_at o (place o target ss) lo ss ≤ rank target + 1)
        × (rank target + 1 ≤ hi_at o (place o target ss) hi ss)
  unfolding lo_at hi_at rank_in keys
  above_at lo hi nil l u = (l, u)
  above_at lo hi (slot k v c ss) l u = elim (dec_lt (rank target) (rank k)) [
    | yes before ↦
        let e : place o target (slot k v c ss) ≡ 0 = ground (arith, before) in
        rw e (l, omega (arith, before))
    | no behind ↦
        let e : place o target (slot k v c ss) ≡ suc (place o target ss) = ground (arith, behind) in
        rw e (above_at (rank k + 1) hi ss (omega (arith, behind)) u)
  ]

  pub from_at :
      (lo hi : ℕ) (ss : Slots K)
      → lo ≤ rank target
      → rank target ≤ hi
      → has_key o target (keys ss) ≡ false
      → (lo_at o (place o target ss) lo ss ≤ rank target)
        × (rank target ≤ hi_at o (place o target ss) hi ss)
  unfolding lo_at hi_at rank_in keys has_key
  from_at lo hi nil l u absent = (l, u)
  from_at lo hi (slot k v c ss) l u absent = elim (dec_lt (rank target) (rank k)) [
    | yes before ↦
        let e : place o target (slot k v c ss) ≡ 0 = ground (arith, before) in
        rw e (l, omega (arith, before))
    | no behind ↦
        let e : place o target (slot k v c ss) ≡ suc (place o target ss) = ground (arith, behind) in
        rw e
          (from_at (rank k + 1) hi ss (ground (arith, behind, absent)) u (ground (arith, absent)))
  ]

  pub search_gt-node :
      (low d lo hi : ℕ) (b : Node K) (ss : Slots K)
      → 1 ≤ low
      → IsTree o low (suc d) lo hi (node b ss)
      → search_gt cmp target (node b ss) ≡ (
          if is_null (branch_at b ss (place o target ss))
          then entry_after ss (place o target ss)
          else if has_key o target (keys ss)
          then search_gt cmp target (branch_at b ss (place o target ss))
          else or_else
              (search_gt cmp target (branch_at b ss (place o target ss)))
              (entry_after ss (place o target ss)))
  unfolding search_gt search_gt_step
  search_gt-node low d lo hi b ss some_key tree =
      descend-node none (search_gt_step cmp target) b ss
      ∙ rw (node_lem o target low d lo hi b ss tree some_key) refl

  -- A branch whose entries are all above has one.
  or_else-LeastFrom :
      (a d lo hi : ℕ) (t : Node K) (r other : Option (K × ℕ))
      → IsTree o min_count (suc d) lo hi t
      → a ≤ lo
      → LeastFrom o a t r
      → or_else r other ≡ r
  unfolding LeastFrom or_else
  or_else-LeastFrom a d lo hi t (some e) other tree l least = refl
  or_else-LeastFrom a d lo hi t none other tree l least =
      let (k, v, e, has, tree') = leftmost_lem o min_count d lo hi t (omega arith) tree in
      absurd (
        omega (
          arith,
          least k v has,
          ((IsTree-Bounded o min_count (suc d) lo hi t tree).1 k v has).0,
          l,
        ))

  or_else-GreatestBelow :
      (a d lo hi : ℕ) (t : Node K) (r other : Option (K × ℕ))
      → IsTree o min_count (suc d) lo hi t
      → hi ≤ a
      → GreatestBelow o a t r
      → or_else r other ≡ r
  unfolding GreatestBelow or_else
  or_else-GreatestBelow a d lo hi t (some e) other tree l greatest = refl
  or_else-GreatestBelow a d lo hi t none other tree l greatest =
      let (k, v, e, has, tree') = leftmost_lem o min_count d lo hi t (omega arith) tree in
      absurd (
        omega (
          arith,
          greatest k v has,
          ((IsTree-Bounded o min_count (suc d) lo hi t tree).1 k v has).1,
          l,
        ))

  -- Where there is no branch, the entry beside it is taken, as where nothing is found in the branch.
  module _ (f : Node K → Option (K × ℕ)) (nothing : f null ≡ none) (other : Option (K × ℕ)) where
    pub null_or :
        (t : Node K) → (if is_null t then other else or_else (f t) other) ≡ or_else (f t) other
    unfolding is_null or_else
    null_or null = rw nothing refl
    null_or (node b ss) = refl

    full_or_least :
        (a d lo hi : ℕ) (t : Node K)
        → IsTree o min_count d lo hi t
        → a ≤ lo
        → LeastFrom o a t (f t)
        → (if is_null t then other else f t) ≡ or_else (f t) other
    unfolding is_null or_else IsTree
    full_or_least a d lo hi null tree l least = rw nothing refl
    full_or_least a zero lo hi (node b ss) tree l least = absurd tree
    full_or_least a (suc d) lo hi (node b ss) tree l least =
        sym (or_else-LeastFrom a d lo hi (node b ss) (f (node b ss)) other tree l least)

    pub full_or_greatest :
        (a d lo hi : ℕ) (t : Node K)
        → IsTree o min_count d lo hi t
        → hi ≤ a
        → GreatestBelow o a t (f t)
        → (if is_null t then other else f t) ≡ or_else (f t) other
    unfolding is_null or_else IsTree
    full_or_greatest a d lo hi null tree l greatest = rw nothing refl
    full_or_greatest a zero lo hi (node b ss) tree l greatest = absurd tree
    full_or_greatest a (suc d) lo hi (node b ss) tree l greatest =
        sym (or_else-GreatestBelow a d lo hi (node b ss) (f (node b ss)) other tree l greatest)

  module _ (low d lo hi : ℕ) (b : Node K) (ss : Slots K)
      (tree : IsTree o low (suc d) lo hi (node b ss)) where
    abbrev p : ℕ
    p = place o target ss

    -- The nearest entry from what is found in the branch and what stands beside it.
    pub least_here :
        (a q : ℕ)
        → q ≤ count ss
        → lo_at o q lo ss ≤ a
        → a ≤ hi_at o q hi ss
        → (r : Option (K × ℕ)) → LeastFrom o a (branch_at b ss q) r
        → LeastFrom o a (node b ss) (or_else r (entry_after ss q))
    least_here a q here l u r least =
        let s = slots_of o target low d lo hi b ss tree in
        let bounded = IsTree-Bounded o min_count d in
        least_of o (IsTree o min_count d) bounded q lo hi b ss s here a r (entry_after ss q) l u
          least (entry_after-Behind o (IsTree o min_count d) bounded q lo hi b ss s here)

    pub greatest_here :
        (a q : ℕ)
        → q ≤ count ss
        → lo_at o q lo ss ≤ a
        → a ≤ hi_at o q hi ss
        → (r : Option (K × ℕ)) → GreatestBelow o a (branch_at b ss q) r
        → GreatestBelow o a (node b ss) (or_else r (entry_here ss q))
    greatest_here a q here l u r greatest =
        let s = slots_of o target low d lo hi b ss tree in
        let bounded = IsTree-Bounded o min_count d in
        greatest_of o (IsTree o min_count d) bounded q lo hi b ss s here a r (entry_here ss q) l u
          greatest (entry_here-Before o (IsTree o min_count d) bounded q lo hi b ss s here)

  -- In a well-formed tree with the key within its bounds, the search above the key gives the entry of the
  -- least greater key, or nothing where there is none.
  pub search_gt_lem :
      (low d lo hi : ℕ) (t : Node K)
      → 1 ≤ low
      → IsTree o low d lo hi t
      → lo ≤ rank target + 1
      → rank target + 1 ≤ hi
      → LeastFrom o (rank target + 1) t (search_gt cmp target t)
  unfolding IsTree Has LeastFrom search_gt descend
  search_gt_lem low zero lo hi null some_key tree l u = λ x w h. absurd h
  search_gt_lem low zero lo hi (node b ss) some_key tree l u = absurd tree
  search_gt_lem low (suc d) lo hi null some_key tree l u = absurd tree
  search_gt_lem low (suc d) lo hi (node b ss) some_key tree l u =
      let p = place o target ss in
      let (l', u') = above_at lo hi ss l u in
      let own = branch_of o target low d lo hi b ss tree in
      let step = search_gt-node low d lo hi b ss some_key tree in
      let below =
        search_gt_lem min_count d (lo_at o p lo ss) (hi_at o p hi ss) (branch_at b ss p)
          (omega arith) own l' u' in
      let gives : search_gt cmp target (node b ss)
          ≡ or_else (search_gt cmp target (branch_at b ss p)) (entry_after ss p) =
        elim (Bool-cases (has_key o target (keys ss))) [
          | inl there ↦
              let start =
                lo_at-place o target lo lo ss (keys-Increasing o target low d lo hi b ss tree) there
                  p refl in
              step
              ∙ rw there (
                  full_or_least (search_gt cmp target) refl (entry_after ss p) (rank target + 1) d
                    (lo_at o p lo ss) (hi_at o p hi ss) (branch_at b ss p) own
                    (omega (arith, start)) below)
          | inr absent ↦
              step
              ∙ rw absent
                  (null_or (search_gt cmp target) refl (entry_after ss p) (branch_at b ss p))
        ] in
      subst (LeastFrom o (rank target + 1) (node b ss)) (sym gives) (
        least_here low d lo hi b ss tree (rank target + 1) p (place_le o target ss) l' u'
          (search_gt cmp target (branch_at b ss p)) below)
