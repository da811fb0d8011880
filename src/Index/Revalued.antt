-- ===== src/Index/Revalued.antt =====
-- What `SASIndexReplace` of src/sasindex.cpp leaves of a well-formed tree.
use mathlib.Core.Path.{subst}
use sphde.Base.{
  ℕ, zero, suc, ◌+◌, ◌≤◌, ◌≡◌, ◌≢◌, ◌⊎◌, ◌↔◌, inl, inr, refl, sym, ap, ◌∙◌, true, false,
  if◌then◌else◌, arith, Bool-cases,
}
use sphde.Index.Nodes.{
  Node, null, node, Slots, nil, slot, min_count, keys, count, branch_at, descend, descend-node,
}
use sphde.Index.Order.{KeyOrder, Increasing, has_key}
use sphde.Index.Shape.{
  Has, HasIn, Has-branch_at, Has-set_branch, Slotted, IsTree, lo_at, hi_at, bounds_at,
  count-set_branch, Slotted-set_branch,
}
use sphde.Index.Entries.{Bounded, slots_bounds, IsTree-Bounded, outside}
use sphde.Index.Found.{
  place, place_le, slots_of, keys-Increasing, node_lem, branch_of, Has-branch_of,
}
use sphde.Index.Replaced.{found_in_slot}
use sphde.Index.NodeDeleted.{set_branch-branch_at}
use sphde.Index.Revalue.{set_val, with_branch, put_val_step, put_val}

module _ {K : Type 0} (o : KeyOrder K) (target : K) (val : ℕ) where
  open o use {cmp, rank, cmp_lem}

  count-set_val : (p : ℕ) (ss : Slots K) → count (set_val p val ss) ≡ count ss
  unfolding count set_val
  count-set_val p nil = refl
  count-set_val zero (slot k v c ss) = refl
  count-set_val (suc zero) (slot k v c ss) = refl
  count-set_val (suc (suc p)) (slot k v c ss) = ap (λ n. n + 1) (count-set_val (suc p) ss)

  -- The entries with the value of one key exchanged.
  abbrev pub Exchanged : K → (K → ℕ → Type 0) → (K → ℕ → Type 0) → Type 0
  Exchanged k Before After =
      (x : K) (w : ℕ) → After x w ↔ (((x ≡ k) × (w ≡ val)) ⊎ (Before x w × (rank x ≢ rank target)))

  set_val_lem :
      (P : ℕ → ℕ → Node K → Type 0)
      → Bounded o P
      → (lo hi p : ℕ) (b : Node K) (ss : Slots K) → Slotted o P lo hi b ss
      → Increasing o lo (keys ss)
      → has_key o target (keys ss) ≡ true
      → place o target ss ≡ p
      → Slotted o P lo hi b (set_val p val ss)
        × ((k : K) × (v : ℕ) × HasIn k v ss
            × (rank k ≡ rank target)
            × Exchanged k (λ x w. Has x w (node b ss)) (λ x w. Has x w (node b (set_val p val ss))))
  unfolding Slotted set_val Has HasIn keys has_key
  set_val_lem P bounded lo hi p b nil s inc h e = absurd (ground (arith, h))
  set_val_lem P bounded lo hi p b (slot k v c ss) (s, lt, rest) inc h e =
      elim (found_in_slot o target k v c ss lo inc h) [
        | inl (here, e') ↦ rw (sym e ∙ e') (
          (s, lt, rest),
          (
            k,
            v,
            inl (refl, refl),
            here,
            λ x w. grind (
              arith,
              here,
              (bounded lo (rank k) b s).1 x w,
              slots_bounds o P bounded (rank k + 1) hi c ss rest x w,
            ),
          ),
        )
        | inr (below, there, (q, e', e'')) ↦
            let (s', (k', v', has_k, same, has)) =
              set_val_lem P bounded (rank k + 1) hi (suc q) c ss rest inc.1 there e' in
            rw (sym e ∙ e'') (
              (s, lt, s'),
              (
                k',
                v',
                inr (inr has_k),
                same,
                λ x w. grind (arith, below, (bounded lo (rank k) b s).1 x w, has x w),
              ),
            )
      ]

  -- What the exchange of a value leaves: the other entries with the new one, or else the tree.
  abbrev pub Revalued : ℕ → ℕ → ℕ → ℕ → Node K → Node K → Type 0
  Revalued low d lo hi t t' =
      ((k : K) × (v : ℕ) × Has k v t
        × (rank k ≡ rank target)
        × IsTree o low d lo hi t'
        × Exchanged k (λ x w. Has x w t) (λ x w. Has x w t'))
      ⊎ ((t' ≡ t) × ((x : K) (w : ℕ) → Has x w t → rank x ≢ rank target))

  put_val-node :
      (low d lo hi : ℕ) (b : Node K) (ss : Slots K)
      → 1 ≤ low
      → IsTree o low (suc d) lo hi (node b ss)
      → put_val cmp target val (node b ss) ≡ (
          if has_key o target (keys ss)
          then node b (set_val (place o target ss) val ss)
          else with_branch
              (place o target ss)
              (put_val cmp target val (branch_at b ss (place o target ss)))
              b
              ss)
  unfolding put_val put_val_step
  put_val-node low d lo hi b ss some_key tree =
      descend-node null (put_val_step cmp target val) b ss
      ∙ rw (node_lem o target low d lo hi b ss tree some_key) refl

  in_branch :
      (low d lo hi : ℕ) (b c : Node K) (ss : Slots K)
      → IsTree o low (suc d) lo hi (node b ss)
      → has_key o target (keys ss) ≡ false
      → Revalued min_count d
          (lo_at o (place o target ss) lo ss)
          (hi_at o (place o target ss) hi ss)
          (branch_at b ss (place o target ss))
          c
      → Revalued low (suc d) lo hi (node b ss) (with_branch (place o target ss) c b ss)
  unfolding with_branch IsTree
  in_branch low d lo hi b c ss tree absent (inr (same, none_there)) = inr (
    rw same (rw (set_branch-branch_at (place o target ss) b ss) refl),
    λ x w h e. none_there x w (Has-branch_of o target low d lo hi b ss tree absent x w h e) e,
  )
  in_branch low d lo hi b c ss tree absent (inl (k, v, has_k, e, c_tree, has)) =
      let p = place o target ss in
      let here = place_le o target ss in
      let s = slots_of o target low d lo hi b ss tree in
      let in_node : Has k v (node b ss) = (Has-branch_at k v p b ss here).1 (inl has_k) in
      let (l, u) = (IsTree-Bounded o low (suc d) lo hi (node b ss) tree).1 k v in_node in
      let bounds = bounds_at o target lo hi ss (omega (arith, l, e)) (omega (arith, u, e)) absent in
      let n = count-set_branch p c b ss in
      inl (
        k,
        v,
        in_node,
        e,
        (
          rw n tree.0,
          rw n tree.1,
          Slotted-set_branch o (IsTree o min_count d) p lo hi c b ss here s c_tree,
        ),
        λ x w. grind (
          arith,
          has x w,
          Has-set_branch x w p c b ss here,
          Has-branch_at x w p b ss here,
          outside o (IsTree o min_count d) (IsTree-Bounded o min_count d) p lo hi b ss s x w,
        ),
      )

  abbrev RevaluesBranch : ℕ → ℕ → ℕ → Node K → Slots K → Type 0
  RevaluesBranch d lo hi b ss =
      Revalued min_count d (lo_at o (place o target ss) lo ss) (hi_at o (place o target ss) hi ss)
        (branch_at b ss (place o target ss))
        (put_val cmp target val (branch_at b ss (place o target ss)))

  in_node :
      (low d lo hi : ℕ) (b : Node K) (ss : Slots K)
      → 1 ≤ low
      → IsTree o low (suc d) lo hi (node b ss)
      → RevaluesBranch d lo hi b ss
      → Revalued low (suc d) lo hi (node b ss) (put_val cmp target val (node b ss))
  unfolding IsTree Has
  in_node low d lo hi b ss some_key tree below =
      let step = put_val-node low d lo hi b ss some_key tree in
      elim (Bool-cases (has_key o target (keys ss))) [
        | inl there ↦
            let p = place o target ss in
            let (s', (k, v, has_k, e, has)) =
              set_val_lem (IsTree o min_count d) (IsTree-Bounded o min_count d) lo hi p b ss
                (slots_of o target low d lo hi b ss tree)
                (keys-Increasing o target low d lo hi b ss tree) there refl in
            let n = count-set_val p ss in
            let gives : put_val cmp target val (node b ss) ≡ node b (set_val p val ss) =
              step ∙ rw there refl in
            subst (Revalued low (suc d) lo hi (node b ss)) (sym gives)
              (inl (k, v, inr has_k, e, (rw n tree.0, rw n tree.1, s'), has))
        | inr absent ↦
            let c = put_val cmp target val (branch_at b ss (place o target ss)) in
            let gives : put_val cmp target val (node b ss)
                ≡ with_branch (place o target ss) c b ss =
              step ∙ rw absent refl in
            subst (Revalued low (suc d) lo hi (node b ss)) (sym gives)
              (in_branch low d lo hi b c ss tree absent below)
      ]

  pub put_val_lem :
      (low d lo hi : ℕ) (t : Node K)
      → 1 ≤ low
      → IsTree o low d lo hi t
      → Revalued low d lo hi t (put_val cmp target val t)
  unfolding IsTree put_val Has descend
  put_val_lem low zero lo hi null some_key tree = inr (refl, λ x w h. absurd h)
  put_val_lem low zero lo hi (node b ss) some_key tree = absurd tree
  put_val_lem low (suc d) lo hi null some_key tree = absurd tree
  put_val_lem low (suc d) lo hi (node b ss) some_key tree = in_node low d lo hi b ss some_key tree (
      put_val_lem min_count d (lo_at o (place o target ss) lo ss)
        (hi_at o (place o target ss) hi ss) (branch_at b ss (place o target ss)) (omega arith)
        (branch_of o target low d lo hi b ss tree))
