-- ===== src/Index/EnumForward.antt =====
-- What the enumeration of src/sasindexenum.cpp gives.
use mathlib.Core.Path.{subst}
use sphde.Base.{
  ℕ, zero, suc, ◌+◌, ◌≤◌, ◌<◌, ◌≡◌, ◌⊎◌, inl, inr, refl, sym, ap, ◌∙◌, true, false, ltb,
  if◌then◌else◌, Option, none, some, arith, dec_lt, Bool-cases, Option-cases,
}
use sphde.Index.Nodes.{Node, null, node, Slots, nil, slot, min_count, count, branch_at, is_null}
use sphde.Index.Order.{KeyOrder}
use sphde.Index.Shape.{Has, Has-branch_at, IsTree, tree_le, lo_at, hi_at, Slotted-branch_at}
use sphde.Index.Entries.{IsTree-Bounded}
use sphde.Index.Beside.{LeastFrom, before_at, behind_at}
use sphde.Index.Found.{slots_of}
use sphde.Index.Near.{search_gt_lem, least_here}
use sphde.Index.Search.{entry_at, or_else, entry_after, search_gt}
use sphde.Index.Enum.{Ref, entry_in, gt_ref, forward}
use sphde.Index.EnumRef.{IsPart, Refers, gt_ref-Refers}

module _ {K : Type 0} (o : KeyOrder K) where
  open o use {cmp, rank, cmp_lem}

  IsPart-trans :
      (lo hi : ℕ) (t n n' : Node K) (part : IsPart o lo hi t n)
      → IsPart o part.from part.upto n n'
      → IsPart o lo hi t n'
  IsPart-trans lo hi t n n' part part' = record {
    least = part'.least;
    depth = part'.depth;
    from = part'.from;
    upto = part'.upto;
    some_key = part'.some_key;
    tree = part'.tree;
    low = omega (arith, part.low, part'.low);
    high = omega (arith, part.high, part'.high);
    into = λ x w h. part.into x w (part'.into x w h);
    all = λ x w h l u.
        part'.all x w (part.all x w h (omega (arith, l, part'.low)) (omega (arith, u, part'.high)))
          l u;
  }

  -- The reference is to the entry of the least rank from `a` on.
  abbrev pub FindsLeast : ℕ → Node K → ℕ → Option (Ref K) → Type 0
  FindsLeast hi t a r = (e : Option (K × ℕ)) × Refers o 0 hi t r e × LeastFrom o a t e

  -- What is least in a part is least in the tree.
  lift_least :
      (hi a : ℕ) (t n : Node K) (r : Ref K) (e : Option (K × ℕ)) (part : IsPart o 0 hi t n)
      → Refers o part.from part.upto n (some r) e
      → LeastFrom o a n e
      → part.from ≤ a
      → FindsLeast hi t a (some r)
  unfolding Refers LeastFrom
  lift_least hi a t n (n', p) e part (part', (k, v, at, same)) least l =
      let (has, above, first) = subst (LeastFrom o a n) same least in
      let (_, u) =
        (IsTree-Bounded o part.least part.depth part.from part.upto n part.tree).1 k v has in
      (
        some (k, v),
        (IsPart-trans 0 hi t n n' part part', (k, v, at, refl)),
        (
          part.into k v has,
          above,
          λ x w h from_a. elim (dec_lt (rank x) part.upto) [
            | yes inside ↦ first x w (part.all x w h (omega (arith, l, from_a)) inside) from_a
            | no beyond ↦ omega (arith, u, beyond)
          ],
        ),
      )

  entry_at-zero : (ss : Slots K) → entry_at ss 0 ≡ none
  unfolding entry_at
  entry_at-zero nil = refl
  entry_at-zero (slot k v c ss) = refl

  null_least : (a : ℕ) (t : Node K) → is_null t ≡ true → LeastFrom o a t none
  unfolding LeastFrom Has is_null
  null_least a null e = λ x w h. absurd h
  null_least a (node b ss) e = absurd (ground (arith, e))

  after-entry_in :
      (b : Node K) (ss : Slots K) (p : ℕ)
      → p < count ss
      → or_else none (entry_after ss p) ≡ entry_in (node b ss, p + 1)
  unfolding or_else entry_after entry_in
  after-entry_in b ss p more =
      let test : ltb p (count ss) ≡ true = ground (arith, more) in rw test refl

  not_first : (ss : Slots K) (p : ℕ) (k : K) (v : ℕ) → entry_at ss p ≡ some (k, v) → 1 ≤ p
  not_first ss zero k v at = absurd (ground (arith, at, entry_at-zero ss))
  not_first ss (suc p) k v at = omega arith

  -- In a leaf the next entry is the one behind.
  leaf_least :
      (key : K) (low d lo hi p : ℕ) (b : Node K) (ss : Slots K) (v : ℕ)
      → 1 ≤ low
      → IsTree o low (suc d) lo hi (node b ss)
      → entry_in (node b ss, p) ≡ some (key, v)
      → p < count ss
      → is_null (branch_at b ss p) ≡ true
      → LeastFrom o (rank key + 1) (node b ss) (entry_in (node b ss, p + 1))
  unfolding entry_in
  leaf_least key low d lo hi p b ss v some_key tree at more leaf =
      let P : ℕ → ℕ → Node K → Type 0 = IsTree o min_count d in
      let s = slots_of o key low d lo hi b ss tree in
      let (k', v', at', _, start) =
        before_at o P (IsTree-Bounded o min_count d) p lo hi b ss s (not_first ss p key v at)
          (omega (arith, more)) in
      let both : some (k', v') ≡ some (key, v) = sym at' ∙ at in
      let same : k' ≡ key = cc both in
      let from_key : rank key + 1 ≡ lo_at o p lo ss = ap (λ k. rank k + 1) (sym same) ∙ start in
      let ordered =
        tree_le o min_count d (lo_at o p lo ss) (hi_at o p hi ss) (branch_at b ss p)
          (Slotted-branch_at o P p lo hi b ss (omega (arith, more)) s) in
      subst (LeastFrom o (rank key + 1) (node b ss)) (after-entry_in b ss p more) (
        least_here o key low d lo hi b ss tree (rank key + 1) p (omega (arith, more))
          (omega (arith, from_key)) (omega (arith, from_key, ordered)) none
          (null_least (rank key + 1) (branch_at b ss p) leaf))

  depth_of :
      (low d lo hi : ℕ) (b : Node K) (ss : Slots K)
      → IsTree o low d lo hi (node b ss)
      → (d' : ℕ) × (d ≡ suc d')
  unfolding IsTree
  depth_of low zero lo hi b ss tree = absurd tree
  depth_of low (suc d) lo hi b ss tree = (d, refl)

  module _ (key : K) (v low d lo hi p : ℕ) (b : Node K) (ss : Slots K)
      (tree : IsTree o low (suc d) lo hi (node b ss)) (more : p < count ss) where
    next_entry : (k : K) × (w : ℕ) × (entry_in (node b ss, p + 1) ≡ some (k, w))
    unfolding entry_in
    next_entry =
        let (k, w, at, _, _) =
          behind_at o (IsTree o min_count d) (IsTree-Bounded o min_count d) p lo hi b ss
            (slots_of o key low d lo hi b ss tree) more in
        (k, w, subst (λ q. entry_at ss q ≡ some (k, w)) (omega arith) at)

    entry-Has : entry_in (node b ss, p) ≡ some (key, v) → Has key v (node b ss)
    unfolding entry_in
    entry-Has at =
        let (k', v', at', but, _) =
          before_at o (IsTree o min_count d) (IsTree-Bounded o min_count d) p lo hi b ss
            (slots_of o key low d lo hi b ss tree) (not_first ss p key v at)
            (omega (arith, more)) in
        let both : some (k', v') ≡ some (key, v) = sym at' ∙ at in
        let same_key : k' ≡ key = cc both in
        let same_value : v' ≡ v = cc both in
        subst (λ k. Has k v (node b ss)) same_key
          (subst (λ w. Has k' w (node b ss)) same_value
            ((Has-branch_at k' v' p b ss (omega (arith, more))).1 (inr but)))

    forward-node : forward cmp key (node b ss, p) ≡ (
        if is_null (branch_at b ss p) then some (node b ss, p + 1) else gt_ref cmp key (node b ss))
    unfolding forward
    forward-node = let test : ltb p (count ss) ≡ true = ground (arith, more) in rw test refl

  itself-IsPart :
      (lo hi : ℕ) (t n : Node K) (part : IsPart o lo hi t n) → IsPart o part.from part.upto n n
  itself-IsPart lo hi t n part = record {
    least = part.least;
    depth = part.depth;
    from = part.from;
    upto = part.upto;
    some_key = part.some_key;
    tree = part.tree;
    low = omega arith;
    high = omega arith;
    into = λ x w h. h;
    all = λ x w h l u. h;
  }

  module _ (hi p : ℕ) (t : Node K) (b : Node K) (ss : Slots K) (key : K) (v : ℕ)
      (part : IsPart o 0 hi t (node b ss)) (at : entry_in (node b ss, p) ≡ some (key, v))
      (more : p < count ss) where
    own-IsTree : (d : ℕ) × IsTree o part.least (suc d) part.from part.upto (node b ss)
    own-IsTree =
        let (d, e) = depth_of part.least part.depth part.from part.upto b ss part.tree in
        (d, subst (λ d. IsTree o part.least d part.from part.upto (node b ss)) e part.tree)

    key_inside : (part.from ≤ rank key + 1) × (rank key + 1 ≤ part.upto)
    key_inside =
        let (d, tree) = own-IsTree in
        let has = entry-Has key v part.least d part.from part.upto p b ss tree more at in
        let (l, u) =
          (IsTree-Bounded o part.least (suc d) part.from part.upto (node b ss) tree).1 key v has in
        (omega (arith, l), omega (arith, u))

    in_leaf :
        is_null (branch_at b ss p) ≡ true → FindsLeast hi t (rank key + 1) (some (node b ss, p + 1))
    unfolding Refers
    in_leaf leaf =
        let (d, tree) = own-IsTree in
        let (k, w, next) = next_entry key v part.least d part.from part.upto p b ss tree more in
        lift_least hi (rank key + 1) t (node b ss) (node b ss, p + 1) (entry_in (node b ss, p + 1))
          part (itself-IsPart 0 hi t (node b ss) part, (k, w, next, next))
          (leaf_least key part.least d part.from part.upto p b ss v part.some_key tree at more leaf)
          key_inside.0

    below_node :
        (r : Ref K) → gt_ref cmp key (node b ss) ≡ some r → FindsLeast hi t (rank key + 1) (some r)
    below_node r e =
        let refers =
          gt_ref-Refers o key part.least part.depth part.from part.upto (node b ss) part.some_key
            part.tree in
        let least =
          search_gt_lem o key part.least part.depth part.from part.upto (node b ss) part.some_key
            part.tree key_inside.0 key_inside.1 in
        lift_least hi (rank key + 1) t (node b ss) r (search_gt cmp key (node b ss)) part
          (subst (λ q. Refers o part.from part.upto (node b ss) q (search_gt cmp key (node b ss))) e
            refers)
          least key_inside.0

    forward_more :
        (forward cmp key (node b ss, p) ≡ none)
        ⊎ FindsLeast hi t (rank key + 1) (forward cmp key (node b ss, p))
    forward_more =
        let (d, tree) = own-IsTree in
        let gives = forward-node key v part.least d part.from part.upto p b ss tree more in
        elim (Bool-cases (is_null (branch_at b ss p))) [
          | inl leaf ↦
              let here : forward cmp key (node b ss, p) ≡ some (node b ss, p + 1) =
                gives ∙ rw leaf refl in
              inr (subst (FindsLeast hi t (rank key + 1)) (sym here) (in_leaf leaf))
          | inr inner ↦
              let below : forward cmp key (node b ss, p) ≡ gt_ref cmp key (node b ss) =
                gives ∙ rw inner refl in
              elim (Option-cases (gt_ref cmp key (node b ss))) [
                | inl nothing ↦ inl (below ∙ nothing)
                | inr (r, e) ↦
                    inr (subst (FindsLeast hi t (rank key + 1)) (sym (below ∙ e)) (below_node r e))
              ]
        ]

  -- From the reference of an entry on, the next one of the tree is found, or nothing.
  pub forward_lem :
      (hi p : ℕ) (t n : Node K) (key : K) (v : ℕ)
      → IsPart o 0 hi t n
      → entry_in (n, p) ≡ some (key, v)
      → (forward cmp key (n, p) ≡ none) ⊎ FindsLeast hi t (rank key + 1) (forward cmp key (n, p))
  unfolding entry_in forward
  forward_lem hi p t null key v part at = inl refl
  forward_lem hi p t (node b ss) key v part at = elim (dec_lt p (count ss)) [
    | yes more ↦ forward_more hi p t b ss key v part at more
    | no last ↦ let test : ltb p (count ss) ≡ false = ground (arith, last) in inl (rw test refl)
  ]
