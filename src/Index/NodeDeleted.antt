-- ===== src/Index/NodeDeleted.antt =====
-- The deletion in a node of a well-formed tree of src/sasindexnode.cpp, given that in its branches.
use mathlib.Core.Path.{subst}
use sphde.Base.{
  ℕ, zero, suc, ◌+◌, ◌-◌, ◌≤◌, ◌<◌, ◌≡◌, ◌≢◌, ◌⊎◌, ◌↔◌, inl, inr, refl, sym, ap, ◌∙◌, Bool, true,
  false, if◌then◌else◌, some, arith,
}
use sphde.Index.Nodes.{
  Node, null, node, Slots, nil, slot, min_count, keys, count, branch_at, set_branch, is_null,
  descend-node,
}
use sphde.Index.Order.{KeyOrder, has_key}
use sphde.Index.Shape.{
  Has, HasBut, Has-branch_at, Has-set_branch, IsTree, lo_at, hi_at, bounds_at, count-set_branch,
  Slotted-branch_at,
}
use sphde.Index.Entries.{IsTree-Bounded, IsTree-unique, outside, entry_at-has_key}
use sphde.Index.Found.{
  place, place_le, slots_of, keys-Increasing, node_lem, branch_of, Has-branch_of,
}
use sphde.Index.Settled.{restore_if_small_lem, left_alone, null_alone, leaf_branch, is_null-IsTree}
use sphde.Index.Successor.{leftmost_lem, IsTree-loosen, IsTree-raise}
use sphde.Index.Replaced.{remove_lem, replace_lem, Slotted-Holed, lo_at-place}
use sphde.Index.Delete.{
  remove, restore_if_small, leftmost, set_entry, after_branch, delete_at, delete_step, rec_delete,
}

module _ {K : Type 0} where
  pub set_branch-branch_at :
      (p : ℕ) (b : Node K) (ss : Slots K) → set_branch p (branch_at b ss p) b ss ≡ (b, ss)
  unfolding set_branch branch_at
  set_branch-branch_at zero b ss = refl
  set_branch-branch_at (suc p) b nil = refl
  set_branch-branch_at (suc p) b (slot k v c ss) = rw (set_branch-branch_at p c ss) refl

  count-set_entry : (p : ℕ) (k : K) (v : ℕ) (ss : Slots K) → count (set_entry p k v ss) ≡ count ss
  unfolding count set_entry
  count-set_entry p k v nil = refl
  count-set_entry zero k v (slot k' v' c ss) = refl
  count-set_entry (suc zero) k v (slot k' v' c ss) = refl
  count-set_entry (suc (suc p)) k v (slot k' v' c ss) =
      ap (λ n. n + 1) (count-set_entry (suc p) k v ss)

module _ {K : Type 0} (o : KeyOrder K) where
  open o use {cmp, rank, cmp_lem}

  -- What a deletion leaves: the other entries, where the key was there, or else the tree.
  abbrev pub Deleted : ℕ → ℕ → ℕ → ℕ → Node K → K → Bool × Node K → Type 0
  Deleted low d lo hi t target (found, t') =
      ((found ≡ true)
        × ((k : K) × (v : ℕ) × Has k v t × (rank k ≡ rank target))
        × IsTree o low d lo hi t'
        × ((x : K) (w : ℕ) → Has x w t' ↔ (Has x w t × (rank x ≢ rank target))))
      ⊎ ((found ≡ false) × (t' ≡ t) × ((x : K) (w : ℕ) → Has x w t → rank x ≢ rank target))

  pub rec_delete-node :
      (low d lo hi : ℕ) (b : Node K) (ss : Slots K) (target : K)
      → 1 ≤ low
      → IsTree o low (suc d) lo hi (node b ss)
      → rec_delete cmp (node b ss) target ≡ (
          if has_key o target (keys ss)
          then delete_at
              (place o target ss)
              b
              ss
              (rec_delete cmp (branch_at b ss (place o target ss)))
          else after_branch
              (place o target ss)
              b
              ss
              (rec_delete cmp (branch_at b ss (place o target ss)) target))
  unfolding rec_delete delete_step
  rec_delete-node low d lo hi b ss target some_key tree =
      ap (λ f. f target) (descend-node (λ target. (false, null)) (delete_step cmp) b ss)
      ∙ rw (node_lem o target low d lo hi b ss tree some_key) refl

  -- A deletion goes on in the branch at the key's place, and the node is put in order behind it.
  module _ (low d lo hi : ℕ) (b : Node K) (ss : Slots K) (target : K)
      (tree : IsTree o (low + 1) (suc d) lo hi (node b ss)) where
    abbrev p : ℕ
    p = place o target ss

    abbrev T : Node K
    T = branch_at b ss p

    here : p ≤ count ss
    here = place_le o target ss

    pub after_branch_lem :
        has_key o target (keys ss) ≡ false
        → (r : Bool × Node K)
        → Deleted (min_count - 1) d (lo_at o p lo ss) (hi_at o p hi ss) T target r
        → Deleted low (suc d) lo hi (node b ss) target (after_branch p b ss r)
    unfolding after_branch IsTree
    after_branch_lem absent (found, c) (inl (yes_found, (k, v, has_k, e), c_tree, has)) =
        let in_node : Has k v (node b ss) = (Has-branch_at k v p b ss here).1 (inl has_k) in
        let (l, u) = (IsTree-Bounded o (low + 1) (suc d) lo hi (node b ss) tree).1 k v in_node in
        let bounds =
          bounds_at o target lo hi ss (omega (arith, l, e)) (omega (arith, u, e)) absent in
        let s = slots_of o target (low + 1) d lo hi b ss tree in
        let n = count-set_branch p c b ss in
        let holed =
          Slotted-Holed o target (IsTree o min_count d) (IsTree o (min_count - 1) d)
            (IsTree-Bounded o min_count d) (IsTree-loosen o min_count d) p lo hi c b ss here s
            c_tree in
        let (tree', has') =
          restore_if_small_lem o low d lo hi p (set_branch p c b ss).0 (set_branch p c b ss).1
            (rw n tree.0) (rw n tree.1) (rw n here) holed in
        inl (
          yes_found,
          (k, v, in_node, e),
          tree',
          λ x w. grind (
            arith,
            has' x w,
            has x w,
            Has-set_branch x w p c b ss here,
            Has-branch_at x w p b ss here,
            outside o (IsTree o min_count d) (IsTree-Bounded o min_count d) p lo hi b ss s x w,
          ),
        )
    after_branch_lem absent (found, c) (inr (not_found, same, none_there)) = inr (
      not_found,
      rw same (
          rw (set_branch-branch_at p b ss) (
            left_alone o d (lo_at o p lo ss) (hi_at o p hi ss) p b ss
              (branch_of o target (low + 1) d lo hi b ss tree))),
      λ x w h e.
          none_there x w (Has-branch_of o target (low + 1) d lo hi b ss tree absent x w h e) e,
    )

  -- The key in a leaf.
  pub in_leaf :
      (low lo hi : ℕ) (b : Node K) (ss : Slots K) (target : K)
      → IsTree o (low + 1) 1 lo hi (node b ss)
      → has_key o target (keys ss) ≡ true
      → (below : K → Bool × Node K)
      → Deleted low 1 lo hi (node b ss) target (delete_at (place o target ss) b ss below)
  unfolding IsTree delete_at Has
  in_leaf low lo hi b ss target tree there below =
      let s = slots_of o target (low + 1) 0 lo hi b ss tree in
      let inc = keys-Increasing o target (low + 1) 0 lo hi b ss tree in
      let (k, v, _, e, has_k) = entry_at-has_key o target lo ss inc there in
      let (s', n, has) = remove_lem o target lo hi (place o target ss) b ss s inc there refl in
      let after =
        null_alone o (place o target ss) b (remove (place o target ss) ss)
          (leaf_branch o lo hi (place o target ss) b (remove (place o target ss) ss) s') in
      rw (leaf_branch o lo hi (place o target ss - 1) b ss s) (
        rw after (
          inl (
            refl,
            (k, v, inr has_k, e),
            (omega (arith, n, tree.0), omega (arith, n, tree.1), s'),
            has,
          )))

  -- The entries of a node with a key replaced by its successor and the successor deleted.
  replaced_entries :
      (target k x : K) (v w : ℕ) (Tree Branch Below Others Result Taken : Type 0)
      → (Result ↔ Taken)
      → (Taken ↔ (((x ≡ k) × (w ≡ v)) ⊎ Below ⊎ (Others × (rank x ≢ rank target))))
      → (Below ↔ (Branch × (rank x ≢ rank k)))
      → (Tree ↔ (Branch ⊎ Others))
      → (Branch → rank target < rank x)
      → (Branch → rank x ≡ rank k → (x ≡ k) × (w ≡ v))
      → ((x ≡ k) × (w ≡ v) → Branch)
      → Result ↔ (Tree × (rank x ≢ rank target))
  replaced_entries target k x v w Tree Branch Below Others Result Taken a b c d e f g = grind arith

  delete_at-inner :
      (p : ℕ) (b : Node K) (ss : Slots K) (k : K) (v : ℕ) (below : K → Bool × Node K)
      → is_null (branch_at b ss (p - 1)) ≡ false
      → leftmost (branch_at b ss p) ≡ some (k, v)
      → delete_at p b ss below ≡ after_branch p b (set_entry p k v ss) (below k)
  unfolding delete_at
  delete_at-inner p b ss k v below e e' = rw e (rw e' refl)

  module _ (low d lo hi : ℕ) (b : Node K) (ss : Slots K) (target : K)
      (tree : IsTree o (low + 1) (suc (suc d)) lo hi (node b ss))
      (there : has_key o target (keys ss) ≡ true) where
    abbrev p' : ℕ
    p' = place o target ss

    abbrev Branch : Node K
    Branch = branch_at b ss p'

    -- The successor in the place of the key, and out of the branch.
    successor_moved :
        (k : K) (v : ℕ)
        → Has k v Branch
        → IsTree o min_count (suc d) (rank k) (hi_at o p' hi ss) Branch
        → (r : Bool × Node K)
        → Deleted (min_count - 1) (suc d) (rank k) (hi_at o p' hi ss) Branch k r
        → Deleted low
            (suc (suc d))
            lo
            hi
            (node b ss)
            target
            (after_branch p' b (set_entry p' k v ss) r)
    unfolding after_branch IsTree Has
    successor_moved k v has_k branch (found, c) (inr (_, _, none_there)) =
        absurd (none_there k v has_k refl)
    successor_moved k v has_k branch (found, c) (inl (yes_found, _, c_tree, has)) =
        let P : ℕ → ℕ → Node K → Type 0 = IsTree o min_count (suc d) in
        let Q : ℕ → ℕ → Node K → Type 0 = IsTree o (min_count - 1) (suc d) in
        let s = slots_of o target (low + 1) (suc d) lo hi b ss tree in
        let inc = keys-Increasing o target (low + 1) (suc d) lo hi b ss tree in
        let here = place_le o target ss in
        let (kf, vf, _, e, has_kf) = entry_at-has_key o target lo ss inc there in
        let own = branch_of o target (low + 1) (suc d) lo hi b ss tree in
        let start = lo_at-place o target lo lo ss inc there p' refl in
        let within =
          (IsTree-Bounded o min_count (suc d) (lo_at o p' lo ss) (hi_at o p' hi ss) Branch own).1 in
        let above =
          (IsTree-Bounded o min_count (suc d) (rank k) (hi_at o p' hi ss) Branch branch).1 in
        let least : (x : K) (w : ℕ) → Has x w c → rank k + 1 ≤ rank x = λ x w h.
          let (h', ne) = (has x w).0 h in let l = (above x w h').0 in grind (arith, l, ne) in
        let (low_k, up_k) = within k v has_k in
        let raised =
          IsTree-raise o (min_count - 1) (suc d) (rank k) (rank k + 1) (hi_at o p' hi ss) c c_tree
            (omega (arith, up_k)) least in
        let (holed, has') =
          replace_lem o target P Q (IsTree-Bounded o min_count (suc d))
            (IsTree-loosen o min_count (suc d)) lo hi p' b ss s inc there refl k v c
            (omega (arith, start, low_k)) up_k raised in
        let n = count-set_branch p' c b (set_entry p' k v ss) ∙ count-set_entry p' k v ss in
        let (tree', has'') =
          restore_if_small_lem o low (suc d) lo hi p' (set_branch p' c b (set_entry p' k v ss)).0
            (set_branch p' c b (set_entry p' k v ss)).1 (rw n tree.0) (rw n tree.1) (rw n here)
            holed in
        inl (
          yes_found,
          (kf, vf, inr has_kf, e),
          tree',
          λ x w.
              replaced_entries target k x v w (Has x w (node b ss)) (Has x w Branch) (Has x w c)
                (HasBut x w p' b ss)
                (Has x w (
                  restore_if_small p' (set_branch p' c b (set_entry p' k v ss)).0
                    (set_branch p' c b (set_entry p' k v ss)).1))
                (Has x w (
                  node (set_branch p' c b (set_entry p' k v ss)).0
                    (set_branch p' c b (set_entry p' k v ss)).1))
                (has'' x w) (has' x w) (has x w) (Has-branch_at x w p' b ss here)
                (λ h. omega (arith, start, (within x w h).0))
                (λ h same.
                  IsTree-unique o min_count (suc d) (rank k) (hi_at o p' hi ss) Branch branch x k w
                    v h has_k same)
                (λ (same, same'). rw same (rw same' has_k)),
        )

    -- The key in an inner node.
    pub in_inner :
        (below : K → Bool × Node K)
        → ((lo hi : ℕ) (k : K)
            → IsTree o min_count (suc d) lo hi Branch
            → Deleted (min_count - 1) (suc d) lo hi Branch k (below k))
        → Deleted low (suc (suc d)) lo hi (node b ss) target (delete_at p' b ss below)
    in_inner below deletes =
        let here = place_le o target ss in
        let s = slots_of o target (low + 1) (suc d) lo hi b ss tree in
        let (k, v, e, has_k, branch) =
          leftmost_lem o min_count d (lo_at o p' lo ss) (hi_at o p' hi ss) Branch (omega arith)
            (branch_of o target (low + 1) (suc d) lo hi b ss tree) in
        let before =
          Slotted-branch_at o (IsTree o min_count (suc d)) (p' - 1) lo hi b ss (omega (arith, here))
            s in
        let not_null =
          is_null-IsTree o min_count d (lo_at o (p' - 1) lo ss) (hi_at o (p' - 1) hi ss)
            (branch_at b ss (p' - 1)) before in
        subst (Deleted low (suc (suc d)) lo hi (node b ss) target)
          (sym (delete_at-inner p' b ss k v below not_null e))
          (successor_moved k v has_k branch (below k)
            (deletes (rank k) (hi_at o p' hi ss) k branch))
