-- ===== src/UlongTree/Places.antt =====
-- The two functions `searchNode` of src/ultree.cpp.
use sphde.Base.{
  ℕ, ◌≡◌, ◌↔◌, inl, inr, refl, ap, sym, ◌∙◌, true, ltb, ◌==◌, if◌then◌else◌, Bool-cases, arith, [],
  ◌∷◌, ◌++◌, Option, some, none,
}
use sphde.UlongTree.Defs.{
  Tree, leaf, node, Ref, go_left, go_right, is_null, deref, search_from, search_node,
  search_ref_from, search_ref,
}
use sphde.UlongTree.Order.{Has, IsBst, search_node_iff}

-- What a pointer that may be NULL gives in the tree.
abbrev pub deref_maybe : Option Ref → Tree → Tree
deref_maybe none root = leaf
deref_maybe (some pp) root = deref pp root

deref-leaf : (qs : Ref) → deref qs leaf ≡ leaf
unfolding deref
deref-leaf [] = refl
deref-leaf (side ∷ qs) = refl

deref-append : (pp qs : Ref) (t : Tree) → deref (pp ++ qs) t ≡ deref qs (deref pp t)
unfolding deref
deref-append [] qs t = refl
deref-append (side ∷ pp) qs leaf = sym (deref-leaf qs)
deref-append (go_left ∷ pp) qs (node l key info r) = deref-append pp qs l
deref-append (go_right ∷ pp) qs (node l key info r) = deref-append pp qs r

search_ref_from-search_from :
    (t root q : Tree) (k : ℕ) (pp : Ref) (qq : Option Ref)
    → deref pp root ≡ t
    → (is_null t ≡ true → deref_maybe qq root ≡ q)
    → deref_maybe (search_ref_from t k pp qq) root ≡ search_from t k q
unfolding search_ref_from search_from is_null deref
search_ref_from-search_from leaf root q k pp qq at same = same refl
search_ref_from-search_from (node l key info r) root q k pp qq at same =
    let t = node l key info r in
    let left_at = deref-append pp (go_left ∷ []) root ∙ ap (deref (go_left ∷ [])) at in
    let right_at = deref-append pp (go_right ∷ []) root ∙ ap (deref (go_right ∷ [])) at in
    elim (Bool-cases (key == k)) [
      | inl y ↦ ground (arith, y, at)
      | inr n ↦ elim (Bool-cases (ltb key k)) [
        | inl y ↦
            let qq' = if is_null r then some pp else qq in
            let q' = if is_null r then t else q in
            let start : is_null r ≡ true → deref_maybe qq' root ≡ q' = λ z. ground (arith, z, at) in
            ground (
              arith,
              n,
              y,
              search_ref_from-search_from r root q' k (pp ++ go_right ∷ []) qq' right_at start,
            )
        | inr m ↦
            let q' = if is_null l then t else q in
            let start : is_null l ≡ true → deref pp root ≡ q' = λ z. ground (arith, z, at) in
            ground (
              arith,
              n,
              m,
              search_ref_from-search_from l root q' k (pp ++ go_left ∷ []) (some pp) left_at start,
            )
      ]
    ]

-- The pointer that the one `searchNode` gives stands at the node that the other gives, also where the
-- key is not in the tree, and is NULL where the tree is empty.
search_ref-search_node :
    (root : Tree) (k : ℕ) → deref_maybe (search_ref root k) root ≡ search_node root k
unfolding search_ref search_node deref
search_ref-search_node root k =
    search_ref_from-search_from root root leaf k [] none refl (λ z. refl)

-- In a tree in order the search returns a node of the key, with its info, exactly where the tree has
-- one; and in any case the pointer that the other search gives stands at the node that this one gives.
pub searches_lem :
    (t : Tree) (lo hi k i : ℕ)
    → IsBst lo hi t
    → (Has k i t ↔ ((l : Tree) × (r : Tree) × (search_node t k ≡ node l k i r)))
      × (deref_maybe (search_ref t k) t ≡ search_node t k)
searches_lem t lo hi k i b = (search_node_iff t lo hi k i b, search_ref-search_node t k)
