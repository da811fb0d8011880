-- ===== src/Index/Nearest.antt =====
-- What the searches of src/sasindexnode.cpp for the nearest key find, at the key and on both sides of
-- it.
use mathlib.Core.Path.{subst}
use sphde.Base.{
  ℕ, zero, suc, ◌+◌, ◌-◌, ◌≤◌, ◌≡◌, inl, inr, refl, sym, ◌∙◌, true, false, ltb, if◌then◌else◌, none,
  arith, dec_lt, Bool-cases,
}
use sphde.Index.Nodes.{
  Node, null, node, Slots, min_count, keys, count, branch_at, is_null, descend, descend-node,
}
use sphde.Index.Order.{KeyOrder, has_key, has_key-rank_in}
use sphde.Index.Shape.{Has, IsTree, lo_at, hi_at, tree_le, Slotted-branch_at}
use sphde.Index.Entries.{entry_at-has_key}
use sphde.Index.Found.{place, place_le, slots_of, keys-Increasing, node_lem, branch_of}
use sphde.Index.Replaced.{hi_at-place}
use sphde.Index.Near.{above_at, from_at, null_or, full_or_greatest, least_here, greatest_here}
use sphde.Index.Beside.{LeastFrom, GreatestBelow}
use sphde.Index.Search.{
  entry_at, or_else, entry_after, entry_here, search_ge_step, search_ge, search_lt_step, search_lt,
  search_le_step, search_le,
}

module _ {K : Type 0} (o : KeyOrder K) (target : K) where
  open o use {cmp, rank, cmp_lem}

  module _ (low d lo hi : ℕ) (b : Node K) (ss : Slots K) (some_key : 1 ≤ low)
      (tree : IsTree o low (suc d) lo hi (node b ss)) where
    abbrev p : ℕ
    p = place o target ss

    abbrev T : Node K
    T = branch_at b ss p

    pub search_ge-node : search_ge cmp target (node b ss) ≡ (
        if has_key o target (keys ss)
        then entry_at ss p
        else if is_null T
        then entry_after ss p
        else or_else (search_ge cmp target T) (entry_after ss p))
    unfolding search_ge search_ge_step
    search_ge-node =
        descend-node none (search_ge_step cmp target) b ss
        ∙ rw (node_lem o target low d lo hi b ss tree some_key) refl

    search_le-node : search_le cmp target (node b ss) ≡ (
        if has_key o target (keys ss)
        then entry_at ss p
        else if is_null T
        then entry_here ss p
        else or_else (search_le cmp target T) (entry_here ss p))
    unfolding search_le search_le_step
    search_le-node =
        descend-node none (search_le_step cmp target) b ss
        ∙ rw (node_lem o target low d lo hi b ss tree some_key) refl

    search_lt-node : search_lt cmp target (node b ss) ≡ (
        if has_key o target (keys ss)
        then (if is_null (branch_at b ss (p - 1))
            then (if ltb 1 p then entry_at ss (p - 1) else none)
            else search_lt cmp target (branch_at b ss (p - 1)))
        else if is_null T
        then entry_here ss p
        else or_else (search_lt cmp target T) (entry_here ss p))
    unfolding search_lt search_lt_step
    search_lt-node =
        descend-node none (search_lt_step cmp target) b ss
        ∙ rw (node_lem o target low d lo hi b ss tree some_key) refl

    -- The entry of the key itself is the nearest from it on, and the nearest up to it.
    least_there :
        has_key o target (keys ss) ≡ true → LeastFrom o (rank target) (node b ss) (entry_at ss p)
    unfolding LeastFrom Has
    least_there there =
        let (k, v, at, e, has) =
          entry_at-has_key o target lo ss (keys-Increasing o target low d lo hi b ss tree) there in
        rw at (inr has, omega (arith, e), λ x w h above. omega (arith, e, above))

    greatest_there :
        has_key o target (keys ss) ≡ true
        → GreatestBelow o (rank target + 1) (node b ss) (entry_at ss p)
    unfolding GreatestBelow Has
    greatest_there there =
        let (k, v, at, e, has) =
          entry_at-has_key o target lo ss (keys-Increasing o target low d lo hi b ss tree) there in
        rw at (inr has, omega (arith, e), λ x w h below. omega (arith, e, below))

  -- In a well-formed tree with the key within its bounds, the search from the key on gives the entry of
  -- the least key not below it, or nothing where there is none.
  pub search_ge_lem :
      (low d lo hi : ℕ) (t : Node K)
      → 1 ≤ low
      → IsTree o low d lo hi t
      → lo ≤ rank target
      → rank target ≤ hi
      → LeastFrom o (rank target) t (search_ge cmp target t)
  unfolding IsTree Has LeastFrom search_ge descend
  search_ge_lem low zero lo hi null some_key tree l u = λ x w h. absurd h
  search_ge_lem low zero lo hi (node b ss) some_key tree l u = absurd tree
  search_ge_lem low (suc d) lo hi null some_key tree l u = absurd tree
  search_ge_lem low (suc d) lo hi (node b ss) some_key tree l u =
      let p = place o target ss in
      let step = search_ge-node low d lo hi b ss some_key tree in
      elim (Bool-cases (has_key o target (keys ss))) [
        | inl there ↦
            subst (LeastFrom o (rank target) (node b ss)) (sym (step ∙ rw there refl))
              (least_there low d lo hi b ss some_key tree there)
        | inr absent ↦
            let (l', u') = from_at o target lo hi ss l u absent in
            let below =
              search_ge_lem min_count d (lo_at o p lo ss) (hi_at o p hi ss) (branch_at b ss p)
                (omega arith) (branch_of o target low d lo hi b ss tree) l' u' in
            let gives =
              step
              ∙ rw absent (
                  null_or o target (search_ge cmp target) refl (entry_after ss p)
                    (branch_at b ss p)) in
            subst (LeastFrom o (rank target) (node b ss)) (sym gives) (
              least_here o target low d lo hi b ss tree (rank target) p (place_le o target ss) l' u'
                (search_ge cmp target (branch_at b ss p)) below)
      ]

  -- In a well-formed tree with the key within its bounds, the search up to the key gives the entry of the
  -- greatest key not above it, or nothing where there is none.
  pub search_le_lem :
      (low d lo hi : ℕ) (t : Node K)
      → 1 ≤ low
      → IsTree o low d lo hi t
      → lo ≤ rank target + 1
      → rank target + 1 ≤ hi
      → GreatestBelow o (rank target + 1) t (search_le cmp target t)
  unfolding IsTree Has GreatestBelow search_le descend
  search_le_lem low zero lo hi null some_key tree l u = λ x w h. absurd h
  search_le_lem low zero lo hi (node b ss) some_key tree l u = absurd tree
  search_le_lem low (suc d) lo hi null some_key tree l u = absurd tree
  search_le_lem low (suc d) lo hi (node b ss) some_key tree l u =
      let p = place o target ss in
      let step = search_le-node low d lo hi b ss some_key tree in
      elim (Bool-cases (has_key o target (keys ss))) [
        | inl there ↦
            subst (GreatestBelow o (rank target + 1) (node b ss)) (sym (step ∙ rw there refl))
              (greatest_there low d lo hi b ss some_key tree there)
        | inr absent ↦
            let (l', u') = above_at o target lo hi ss l u in
            let below =
              search_le_lem min_count d (lo_at o p lo ss) (hi_at o p hi ss) (branch_at b ss p)
                (omega arith) (branch_of o target low d lo hi b ss tree) l' u' in
            let gives =
              step
              ∙ rw absent (
                  null_or o target (search_le cmp target) refl (entry_here ss p)
                    (branch_at b ss p)) in
            subst (GreatestBelow o (rank target + 1) (node b ss)) (sym gives) (
              greatest_here o target low d lo hi b ss tree (rank target + 1) p
                (place_le o target ss) l' u' (search_le cmp target (branch_at b ss p)) below)
      ]

  before_first :
      (p : ℕ) (ss : Slots K)
      → (if ltb 1 p then entry_at ss (p - 1) else none) ≡ entry_here ss (p - 1)
  unfolding entry_here
  before_first p ss = elim (dec_lt 1 p) [
    | yes l ↦
        let t : ltb 1 p ≡ true = ground (arith, l) in
        let t' : ltb 0 (p - 1) ≡ true = ground (arith, l) in rw t (rw t' refl)
    | no l ↦
        let t : ltb 1 p ≡ false = ground (arith, l) in
        let t' : ltb 0 (p - 1) ≡ false = ground (arith, l) in rw t (rw t' refl)
  ]

  -- In a well-formed tree with the key within its bounds, the search below the key gives the entry of the
  -- greatest lesser key, or nothing where there is none.
  pub search_lt_lem :
      (low d lo hi : ℕ) (t : Node K)
      → 1 ≤ low
      → IsTree o low d lo hi t
      → lo ≤ rank target
      → rank target ≤ hi
      → GreatestBelow o (rank target) t (search_lt cmp target t)
  unfolding IsTree Has GreatestBelow search_lt descend
  search_lt_lem low zero lo hi null some_key tree l u = λ x w h. absurd h
  search_lt_lem low zero lo hi (node b ss) some_key tree l u = absurd tree
  search_lt_lem low (suc d) lo hi null some_key tree l u = absurd tree
  search_lt_lem low (suc d) lo hi (node b ss) some_key tree l u =
      let p = place o target ss in
      let step = search_lt-node low d lo hi b ss some_key tree in
      let s = slots_of o target low d lo hi b ss tree in
      let inc = keys-Increasing o target low d lo hi b ss tree in
      elim (Bool-cases (has_key o target (keys ss))) [
        | inl there ↦
            let q = p - 1 in
            let here : q ≤ count ss = omega (arith, place_le o target ss) in
            let ends =
              hi_at-place o target lo hi ss inc there q
                (omega (arith, has_key-rank_in o target (keys ss) lo inc there)) in
            let own = Slotted-branch_at o (IsTree o min_count d) q lo hi b ss here s in
            let ordered =
              tree_le o min_count d (lo_at o q lo ss) (hi_at o q hi ss) (branch_at b ss q) own in
            let below =
              search_lt_lem min_count d (lo_at o q lo ss) (hi_at o q hi ss) (branch_at b ss q)
                (omega arith) own (omega (arith, ordered, ends)) (omega (arith, ends)) in
            let gives =
              step
              ∙ rw there (
                  rw (before_first p ss) (
                    full_or_greatest o target (search_lt cmp target) refl (entry_here ss q)
                      (rank target) d (lo_at o q lo ss) (hi_at o q hi ss) (branch_at b ss q) own
                      (omega (arith, ends)) below)) in
            subst (GreatestBelow o (rank target) (node b ss)) (sym gives) (
              greatest_here o target low d lo hi b ss tree (rank target) q here
                (omega (arith, ordered, ends)) (omega (arith, ends))
                (search_lt cmp target (branch_at b ss q)) below)
        | inr absent ↦
            let (l', u') = from_at o target lo hi ss l u absent in
            let below =
              search_lt_lem min_count d (lo_at o p lo ss) (hi_at o p hi ss) (branch_at b ss p)
                (omega arith) (branch_of o target low d lo hi b ss tree) l' u' in
            let gives =
              step
              ∙ rw absent (
                  null_or o target (search_lt cmp target) refl (entry_here ss p)
                    (branch_at b ss p)) in
            subst (GreatestBelow o (rank target) (node b ss)) (sym gives) (
              greatest_here o target low d lo hi b ss tree (rank target) p (place_le o target ss) l'
                u' (search_lt cmp target (branch_at b ss p)) below)
      ]
