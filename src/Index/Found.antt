-- ===== src/Index/Found.antt =====
-- What `SASIndexNodeSearch` of src/sasindexnode.cpp finds in a well-formed tree.
use mathlib.Core.Path.{subst}
use sphde.Base.{
  ℕ, zero, suc, ◌≤◌, ◌≡◌, ◌↔◌, inl, inr, refl, sym, ap, ◌∙◌, false, none, some, arith, Bool-cases,
  if◌then◌else◌,
}
use sphde.Index.Nodes.{
  Node, null, node, Slots, min_count, keys, count, branch_at, descend, descend-node, search_node,
}
use sphde.Index.Order.{KeyOrder, Increasing, rank_in, rank_in-le, has_key, search_node_lem}
use sphde.Index.Shape.{
  Has, Has-branch_at, Slotted, IsTree, lo_at, hi_at, bounds_at, length-keys, tree_le,
  Slotted-branch_at, Slotted-Increasing,
}
use sphde.Index.Entries.{IsTree-Bounded, IsTree-unique, outside, entry_at-has_key}
use sphde.Index.Search.{entry_at, search_step, search}

module _ {K : Type 0} (o : KeyOrder K) (target : K) where
  open o use {cmp, rank, cmp_lem}

  abbrev pub place : Slots K → ℕ
  place ss = rank_in o target (keys ss)

  pub place_le : (ss : Slots K) → place ss ≤ count ss
  place_le ss = omega (arith, rank_in-le o target (keys ss), length-keys ss)

  module _ (low d lo hi : ℕ) (b : Node K) (ss : Slots K)
      (tree : IsTree o low (suc d) lo hi (node b ss)) where
    -- The parts of a node's well-formedness.
    pub slots_of : Slotted o (IsTree o min_count d) lo hi b ss
    unfolding IsTree
    slots_of = tree.2

    pub keys-Increasing : Increasing o lo (keys ss)
    keys-Increasing =
        Slotted-Increasing o (IsTree o min_count d) (tree_le o min_count d) lo hi b ss slots_of

    -- The search in the node.
    pub node_lem :
        1 ≤ low → search_node cmp target (keys ss) ≡ (has_key o target (keys ss), place ss)
    unfolding IsTree
    node_lem some_key =
        search_node_lem o target (keys ss) lo keys-Increasing
          (omega (arith, tree.0, length-keys ss, some_key)) (omega (arith, tree.1, length-keys ss))

    -- The branch at the place of the key.
    pub branch_of :
        IsTree o min_count d
          (lo_at o (place ss) lo ss)
          (hi_at o (place ss) hi ss)
          (branch_at b ss (place ss))
    branch_of =
        Slotted-branch_at o (IsTree o min_count d) (place ss) lo hi b ss (place_le ss) slots_of

    -- An entry of the key is in that branch, unless it is in the node.
    pub Has-branch_of :
        has_key o target (keys ss) ≡ false
        → (x : K) (v : ℕ) → Has x v (node b ss)
        → rank x ≡ rank target
        → Has x v (branch_at b ss (place ss))
    Has-branch_of absent x v h e = elim ((Has-branch_at x v (place ss) b ss (place_le ss)).0 h) [
      | inl in_branch ↦ in_branch
      | inr but ↦
          let (l, u) = (IsTree-Bounded o low (suc d) lo hi (node b ss) tree).1 x v h in
          let (l', u') =
            bounds_at o target lo hi ss (omega (arith, l, e)) (omega (arith, u, e)) absent in
          elim (outside o (IsTree o min_count d) (IsTree-Bounded o min_count d) (place ss) lo hi b
            ss slots_of x v but) [
              | inl before ↦ absurd (omega (arith, before, l', e))
              | inr behind ↦ absurd (omega (arith, behind, u', e))
            ]
    ]

  search-node :
      (low d lo hi : ℕ) (b : Node K) (ss : Slots K)
      → 1 ≤ low
      → IsTree o low (suc d) lo hi (node b ss)
      → search cmp target (node b ss) ≡ (
          if has_key o target (keys ss)
          then entry_at ss (place ss)
          else search cmp target (branch_at b ss (place ss)))
  unfolding search search_step
  search-node low d lo hi b ss some_key tree =
      descend-node none (search_step cmp target) b ss
      ∙ rw (node_lem low d lo hi b ss tree some_key) refl

  -- In a well-formed tree, of one key at least in its root, the search gives an entry just where the tree
  -- has it and its key has the rank of the one sought.
  pub search_lem :
      (low d lo hi : ℕ) (t : Node K)
      → 1 ≤ low
      → IsTree o low d lo hi t
      → (k : K) (v : ℕ) → (search cmp target t ≡ some (k, v)) ↔ (Has k v t × (rank k ≡ rank target))
  unfolding IsTree search Has descend
  search_lem low zero lo hi null some_key tree k v =
      (λ e. absurd (ground (arith, e)), λ h. absurd h.0)
  search_lem low zero lo hi (node b ss) some_key tree k v = absurd tree
  search_lem low (suc d) lo hi null some_key tree k v = absurd tree
  search_lem low (suc d) lo hi (node b ss) some_key tree k v =
      let step = search-node low d lo hi b ss some_key tree in
      elim (Bool-cases (has_key o target (keys ss))) [
        | inl there ↦
            let (k', v', at, e, has) =
              entry_at-has_key o target lo ss (keys-Increasing low d lo hi b ss tree) there in
            let gives : search cmp target (node b ss) ≡ some (k', v') =
              ground (arith, step, there, at) in
            (
              (λ e'.
                  let same : some (k', v') ≡ some (k, v) = sym gives ∙ e' in
                  let ek : k' ≡ k = cc same in
                  let ev : v' ≡ v = cc same in
                  (
                    subst (λ x. Has x v (node b ss)) ek
                        (subst (λ y. Has k' y (node b ss)) ev (inr has)),
                    sym (ap rank ek) ∙ e,
                  )),
              λ (h, e').
                  let (ek, ev) =
                    IsTree-unique o low (suc d) lo hi (node b ss) tree k' k v' v (inr has) h
                      (e ∙ sym e') in
                  gives ∙ rw ek (rw ev refl),
            )
        | inr absent ↦
            let gives : search cmp target (node b ss)
                ≡ search cmp target (branch_at b ss (place ss)) =
              ground (arith, step, absent) in
            let (sound, complete) =
              search_lem min_count d (lo_at o (place ss) lo ss) (hi_at o (place ss) hi ss)
                (branch_at b ss (place ss)) (omega arith) (branch_of low d lo hi b ss tree) k v in
            (
              (λ e'.
                  let (h, e) = sound (sym gives ∙ e') in
                  ((Has-branch_at k v (place ss) b ss (place_le ss)).1 (inl h), e)),
              λ (h, e). gives ∙ complete (Has-branch_of low d lo hi b ss tree absent k v h e, e),
            )
      ]
