-- ===== src/Index/Deleted.antt =====
-- The deletion in a well-formed tree of src/sasindexnode.cpp.
use mathlib.Core.Path.{subst}
use sphde.Base.{
  ℕ, zero, suc, ◌+◌, ◌-◌, ◌≡◌, ◌≢◌, ◌⊎◌, ◌↔◌, inl, inr, refl, sym, ◌∙◌, Bool, true, false, ◌==◌,
  if◌then◌else◌, arith, Bool-cases,
}
use sphde.Index.Nodes.{
  Node, null, node, Slots, nil, slot, min_count, keys, count, branch_at, descend,
}
use sphde.Index.Order.{KeyOrder, has_key}
use sphde.Index.Shape.{Has, HasIn, Slotted, IsTree, lo_at, hi_at}
use sphde.Index.Found.{place, branch_of}
use sphde.Index.NodeDeleted.{Deleted, rec_delete-node, after_branch_lem, in_leaf, in_inner}
use sphde.Index.Delete.{delete_at, lower_root, rec_delete, delete}

module _ {K : Type 0} (o : KeyOrder K) where
  open o use {cmp, rank, cmp_lem}

  null_deleted :
      (low lo hi : ℕ) (t : Node K) (target : K)
      → IsTree o (low + 1) 0 lo hi t
      → Deleted o low 0 lo hi t target (rec_delete cmp t target)
  unfolding IsTree Has rec_delete descend
  null_deleted low lo hi null target tree = inr (refl, refl, λ x w h. absurd h)
  null_deleted low lo hi (node b ss) target tree = absurd tree

  at_node :
      (low d lo hi : ℕ) (b : Node K) (ss : Slots K) (target : K)
      → IsTree o (low + 1) (suc d) lo hi (node b ss)
      → (has_key o target (keys ss) ≡ true
          → Deleted o low (suc d) lo hi (node b ss) target (
              delete_at
                (place o target ss)
                b
                ss
                (rec_delete cmp (branch_at b ss (place o target ss)))))
      → ((lo hi : ℕ)
          → IsTree o min_count d lo hi (branch_at b ss (place o target ss))
          → Deleted o
              (min_count - 1)
              d
              lo
              hi
              (branch_at b ss (place o target ss))
              target
              (rec_delete cmp (branch_at b ss (place o target ss)) target))
      → Deleted o low (suc d) lo hi (node b ss) target (rec_delete cmp (node b ss) target)
  at_node low d lo hi b ss target tree found below =
      let step = rec_delete-node o (low + 1) d lo hi b ss target (omega arith) tree in
      elim (Bool-cases (has_key o target (keys ss))) [
        | inl there ↦
            subst (Deleted o low (suc d) lo hi (node b ss) target) (sym (step ∙ rw there refl))
              (found there)
        | inr absent ↦
            subst (Deleted o low (suc d) lo hi (node b ss) target) (sym (step ∙ rw absent refl)) (
              after_branch_lem o low d lo hi b ss target tree absent
                (rec_delete cmp (branch_at b ss (place o target ss)) target)
                (below (lo_at o (place o target ss) lo ss) (hi_at o (place o target ss) hi ss)
                  (branch_of o target (low + 1) d lo hi b ss tree)))
      ]

  -- The recursive deletion in a well-formed tree says whether the key was there; then what it leaves is
  -- well formed but for one slot too few at most in the root, with just the other entries, and else it
  -- is the tree.
  pub rec_delete_lem :
      (low d lo hi : ℕ) (t : Node K) (target : K)
      → IsTree o (low + 1) d lo hi t
      → Deleted o low d lo hi t target (rec_delete cmp t target)
  unfolding IsTree
  rec_delete_lem low zero lo hi t target tree = null_deleted low lo hi t target tree
  rec_delete_lem low (suc d) lo hi null target tree = absurd tree
  rec_delete_lem low (suc zero) lo hi (node b ss) target tree =
      at_node low 0 lo hi b ss target tree
        (λ there.
          in_leaf o low lo hi b ss target tree there
            (rec_delete cmp (branch_at b ss (place o target ss))))
        (λ lo hi. null_deleted (min_count - 1) lo hi (branch_at b ss (place o target ss)) target)
  rec_delete_lem low (suc (suc d)) lo hi (node b ss) target tree =
      at_node low (suc d) lo hi b ss target tree
        (λ there.
          in_inner o low d lo hi b ss target tree there
            (rec_delete cmp (branch_at b ss (place o target ss)))
            (λ lo hi k branch.
              rec_delete_lem (min_count - 1) (suc d) lo hi (branch_at b ss (place o target ss)) k
                branch))
        (λ lo hi branch.
          rec_delete_lem (min_count - 1) (suc d) lo hi (branch_at b ss (place o target ss)) target
            branch)

  -- A node's least count lowered to 1.
  IsTree-least : (d lo hi : ℕ) (t : Node K) → IsTree o min_count d lo hi t → IsTree o 1 d lo hi t
  unfolding IsTree
  IsTree-least zero lo hi null h = h
  IsTree-least zero lo hi (node b ss) h = absurd h
  IsTree-least (suc d) lo hi null h = absurd h
  IsTree-least (suc d) lo hi (node b ss) (l, u, s) = (omega (arith, l), u, s)

  -- What the tree is after the root's end: as deep as before, or less deep by 1.
  abbrev AsDeep : ℕ → ℕ → ℕ → Node K → Type 0
  AsDeep d lo hi t = IsTree o 1 d lo hi t ⊎ ((d' : ℕ) × (d ≡ suc d') × IsTree o 1 d' lo hi t)

  lower_root_lem :
      (d lo hi : ℕ) (t : Node K)
      → IsTree o 0 d lo hi t
      → AsDeep d lo hi (lower_root t) × ((x : K) (w : ℕ) → Has x w (lower_root t) ↔ Has x w t)
  unfolding IsTree Has HasIn Slotted count lower_root
  lower_root_lem zero lo hi null h = (inl h, λ x w. (λ e. e, λ e. e))
  lower_root_lem zero lo hi (node b ss) h = absurd h
  lower_root_lem (suc d) lo hi null h = absurd h
  lower_root_lem (suc d) lo hi (node b nil) (l, u, s) =
      (inr (d, refl, IsTree-least d lo hi b s), λ x w. grind arith)
  lower_root_lem (suc d) lo hi (node b (slot k v c ss)) (l, u, s) =
      let some_key : ((count ss + 1) == 0) ≡ false = ground arith in
      rw some_key (inl (omega arith, u, s), λ x w. (λ e. e, λ e. e))

  root_deleted :
      (d lo hi : ℕ) (t : Node K) (target : K)
      → IsTree o 1 d lo hi t
      → (r : Bool × Node K) → Deleted o 0 d lo hi t target r
      → AsDeep d lo hi (if r.0 then lower_root r.1 else r.1)
        × ((x : K) (w : ℕ)
            → Has x w (if r.0 then lower_root r.1 else r.1) ↔ (Has x w t × (rank x ≢ rank target)))
  root_deleted d lo hi t target tree (found, t') (inl (yes_found, _, tree', has)) =
      let (deep, has') = lower_root_lem d lo hi t' tree' in
      rw yes_found (deep, λ x w. grind (arith, has x w, has' x w))
  root_deleted d lo hi t target tree (found, t') (inr (not_found, same, none_there)) =
      rw not_found (rw same (inl tree, λ x w. grind (arith, none_there x w)))

  -- The deletion of a key from a well-formed tree gives a well-formed tree, as deep or less deep by 1, of
  -- the entries with other keys.
  pub delete_lem :
      (d lo hi : ℕ) (t : Node K) (target : K)
      → IsTree o 1 d lo hi t
      → (IsTree o 1 d lo hi (delete cmp t target)
          ⊎ ((d' : ℕ) × (d ≡ suc d') × IsTree o 1 d' lo hi (delete cmp t target)))
        × ((x : K) (w : ℕ) → Has x w (delete cmp t target) ↔ (Has x w t × (rank x ≢ rank target)))
  unfolding delete
  delete_lem d lo hi t target tree =
      root_deleted d lo hi t target tree (rec_delete cmp t target)
        (rec_delete_lem 0 d lo hi t target tree)
