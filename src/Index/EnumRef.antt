-- ===== src/Index/EnumRef.antt =====
-- The references that the searches of src/sasindexnode.cpp leave for an enumeration.
use mathlib.Core.Path.{subst}
use sphde.Base.{
  ℕ, zero, suc, ◌+◌, ◌≤◌, ◌<◌, ◌≡◌, inl, inr, refl, sym, ◌∙◌, Bool, true, false, ltb, if◌then◌else◌,
  Option, none, some, arith, dec_lt, Bool-cases,
}
use sphde.Index.Nodes.{
  Node, null, node, Slots, nil, slot, min_count, keys, count, branch_at, is_null, descend,
  descend-node,
}
use sphde.Index.Order.{KeyOrder, has_key}
use sphde.Index.Shape.{Has, Has-branch_at, Slotted, IsTree, tree_le, lo_at, hi_at}
use sphde.Index.Entries.{IsTree-Bounded, outside, entry_at-has_key}
use sphde.Index.Beside.{behind_at}
use sphde.Index.Found.{place, place_le, keys-Increasing, node_lem, branch_of}
use sphde.Index.Near.{search_gt-node}
use sphde.Index.Nearest.{search_ge-node}
use sphde.Index.Search.{entry_at, or_else, entry_after, search_gt, search_ge}
use sphde.Index.Enum.{Ref, entry_in, ref_after, or_ref, gt_ref_step, gt_ref, ge_ref_step, ge_ref}

module _ {K : Type 0} (o : KeyOrder K) where
  open o use {cmp, rank, cmp_lem}

  -- A node is a part of a tree: it has the tree's entries between its bounds, which are in the tree's.
  pub record IsPart (lo hi : ℕ) (t n : Node K) : Type 0 where
    pub least : ℕ
    pub depth : ℕ
    pub from : ℕ
    pub upto : ℕ
    pub some_key : 1 ≤ least
    pub tree : IsTree o least depth from upto n
    pub low : lo ≤ from
    pub high : upto ≤ hi
    pub into : (x : K) (w : ℕ) → Has x w n → Has x w t
    pub all : (x : K) (w : ℕ) → Has x w t → from ≤ rank x → rank x < upto → Has x w n

  -- The reference stands in a part of the tree, at the entry.
  unfoldable pub Refers : ℕ → ℕ → Node K → Option (Ref K) → Option (K × ℕ) → Type 0
  Refers lo hi t none e = e ≡ none
  Refers lo hi t (some (n, p)) e =
      IsPart lo hi t n × ((k : K) × (v : ℕ) × (entry_in (n, p) ≡ some (k, v)) × (e ≡ some (k, v)))

  Refers-if :
      (c : Bool) (lo hi : ℕ) (t : Node K) (r r' : Option (Ref K)) (e e' : Option (K × ℕ))
      → Refers lo hi t r e
      → Refers lo hi t r' e'
      → Refers lo hi t (if c then r else r') (if c then e else e')
  Refers-if true lo hi t r r' e e' h h' = h
  Refers-if false lo hi t r r' e e' h h' = h'

  Refers-or :
      (lo hi : ℕ) (t : Node K) (r r' : Option (Ref K)) (e e' : Option (K × ℕ))
      → Refers lo hi t r e
      → Refers lo hi t r' e'
      → Refers lo hi t (or_ref r r') (or_else e e')
  unfolding Refers or_ref or_else
  Refers-or lo hi t none r' e e' h h' = rw h h'
  Refers-or lo hi t (some (n, p)) r' e e' (part, (k, v, at, same)) h' =
      rw same (part, (k, v, at, refl))

  bounds_within :
      (P : ℕ → ℕ → Node K → Type 0)
      → ((lo hi : ℕ) (b : Node K) → P lo hi b → lo ≤ hi)
      → (p lo hi : ℕ) (b : Node K) (ss : Slots K) → Slotted o P lo hi b ss
      → (lo ≤ lo_at o p lo ss) × (hi_at o p hi ss ≤ hi)
  unfolding Slotted lo_at hi_at
  bounds_within P le zero lo hi b nil s = (omega arith, omega arith)
  bounds_within P le (suc p) lo hi b nil s = (omega arith, omega arith)
  bounds_within P le zero lo hi b (slot k v c ss) (s, lt, rest) = (omega arith, omega (arith, lt))
  bounds_within P le (suc p) lo hi b (slot k v c ss) (s, lt, rest) =
      let (l, u) = bounds_within P le p (rank k + 1) hi c ss rest in
      (omega (arith, l, le lo (rank k) b s), u)

  module _ (low d lo hi : ℕ) (b : Node K) (ss : Slots K) (some_key : 1 ≤ low)
      (tree : IsTree o low (suc d) lo hi (node b ss)) where
    slots_here : Slotted o (IsTree o min_count d) lo hi b ss
    unfolding IsTree
    slots_here = tree.2

    whole-IsPart : IsPart lo hi (node b ss) (node b ss)
    whole-IsPart = record {
      least = low;
      depth = suc d;
      from = lo;
      upto = hi;
      some_key = some_key;
      tree = tree;
      low = omega arith;
      high = omega arith;
      into = λ x w h. h;
      all = λ x w h l u. h;
    }

    -- A part of a branch is a part of the node.
    branch-IsPart :
        (p : ℕ) (n : Node K)
        → p ≤ count ss
        → IsPart (lo_at o p lo ss) (hi_at o p hi ss) (branch_at b ss p) n
        → IsPart lo hi (node b ss) n
    branch-IsPart p n here part =
        let s = slots_here in
        let (l, u) = bounds_within (IsTree o min_count d) (tree_le o min_count d) p lo hi b ss s in
        record {
          least = part.least;
          depth = part.depth;
          from = part.from;
          upto = part.upto;
          some_key = part.some_key;
          tree = part.tree;
          low = omega (arith, l, part.low);
          high = omega (arith, u, part.high);
          into = λ x w h. (Has-branch_at x w p b ss here).1 (inl (part.into x w h));
          all = λ x w h above below. elim ((Has-branch_at x w p b ss here).0 h) [
            | inl in_branch ↦ part.all x w in_branch above below
            | inr but ↦
                elim (outside o (IsTree o min_count d) (IsTree-Bounded o min_count d) p lo hi b ss s
                  x w but) [
                    | inl before ↦ absurd (omega (arith, before, part.low, above))
                    | inr behind ↦ absurd (omega (arith, behind, part.high, below))
                  ]
          ];
        }

    Refers-branch :
        (p : ℕ) (r : Option (Ref K)) (e : Option (K × ℕ))
        → p ≤ count ss
        → Refers (lo_at o p lo ss) (hi_at o p hi ss) (branch_at b ss p) r e
        → Refers lo hi (node b ss) r e
    unfolding Refers
    Refers-branch p none e here h = h
    Refers-branch p (some (n, q)) e here (part, at) = (branch-IsPart p n here part, at)

    Refers-after : (p : ℕ) → Refers lo hi (node b ss) (ref_after b ss p) (entry_after ss p)
    unfolding Refers ref_after entry_after entry_in
    Refers-after p = elim (dec_lt p (count ss)) [
      | no last ↦ let test : ltb p (count ss) ≡ false = ground (arith, last) in rw test refl
      | yes more ↦
          let test : ltb p (count ss) ≡ true = ground (arith, more) in
          let (k, v, at, _, _) =
            behind_at o (IsTree o min_count d) (IsTree-Bounded o min_count d) p lo hi b ss
              slots_here more in
          let next : entry_at ss (p + 1) ≡ some (k, v) =
            subst (λ q. entry_at ss q ≡ some (k, v)) (omega arith) at in
          rw test (whole-IsPart, (k, v, next, next))
    ]

  gt_ref-node :
      (target : K) (low d lo hi : ℕ) (b : Node K) (ss : Slots K)
      → 1 ≤ low
      → IsTree o low (suc d) lo hi (node b ss)
      → gt_ref cmp target (node b ss) ≡ (
          if is_null (branch_at b ss (place o target ss))
          then ref_after b ss (place o target ss)
          else if has_key o target (keys ss)
          then gt_ref cmp target (branch_at b ss (place o target ss))
          else or_ref
              (gt_ref cmp target (branch_at b ss (place o target ss)))
              (ref_after b ss (place o target ss)))
  unfolding gt_ref gt_ref_step
  gt_ref-node target low d lo hi b ss some_key tree =
      descend-node none (gt_ref_step cmp target) b ss
      ∙ rw (node_lem o target low d lo hi b ss tree some_key) refl

  ge_ref-node :
      (target : K) (low d lo hi : ℕ) (b : Node K) (ss : Slots K)
      → 1 ≤ low
      → IsTree o low (suc d) lo hi (node b ss)
      → ge_ref cmp target (node b ss) ≡ (
          if has_key o target (keys ss)
          then some (node b ss, place o target ss)
          else if is_null (branch_at b ss (place o target ss))
          then ref_after b ss (place o target ss)
          else or_ref
              (ge_ref cmp target (branch_at b ss (place o target ss)))
              (ref_after b ss (place o target ss)))
  unfolding ge_ref ge_ref_step
  ge_ref-node target low d lo hi b ss some_key tree =
      descend-node none (ge_ref_step cmp target) b ss
      ∙ rw (node_lem o target low d lo hi b ss tree some_key) refl

  module _ (target : K) (low d lo hi : ℕ) (b : Node K) (ss : Slots K) (some_key : 1 ≤ low)
      (tree : IsTree o low (suc d) lo hi (node b ss)) where
    abbrev p : ℕ
    p = place o target ss

    abbrev InBranch : Option (Ref K) → Option (K × ℕ) → Type 0
    InBranch = Refers (lo_at o p lo ss) (hi_at o p hi ss) (branch_at b ss p)

    beside_after : Refers lo hi (node b ss) (ref_after b ss p) (entry_after ss p)
    beside_after = Refers-after low d lo hi b ss some_key tree p

    in_node :
        (r : Option (Ref K)) (e : Option (K × ℕ)) → InBranch r e → Refers lo hi (node b ss) r e
    in_node r e = Refers-branch low d lo hi b ss some_key tree p r e (place_le o target ss)

    gt_node :
        InBranch (gt_ref cmp target (branch_at b ss p)) (search_gt cmp target (branch_at b ss p))
        → Refers lo hi
            (node b ss)
            (gt_ref cmp target (node b ss))
            (search_gt cmp target (node b ss))
    gt_node below =
        let T = branch_at b ss p in
        let r = gt_ref cmp target T in
        let e = search_gt cmp target T in
        let after = entry_after ss p in
        let after_ref = ref_after b ss p in
        subst (Refers lo hi (node b ss) (gt_ref cmp target (node b ss)))
          (sym (search_gt-node o target low d lo hi b ss some_key tree))
          (subst
            (λ q. Refers lo hi (node b ss) q (
              if is_null T
              then after
              else if has_key o target (keys ss)
              then e
              else or_else e after))
            (sym (gt_ref-node target low d lo hi b ss some_key tree))
            (Refers-if (is_null T) lo hi (node b ss) after_ref
              (if has_key o target (keys ss) then r else or_ref r after_ref) after
              (if has_key o target (keys ss) then e else or_else e after) beside_after
              (Refers-if (has_key o target (keys ss)) lo hi (node b ss) r (or_ref r after_ref) e
                (or_else e after) (in_node r e below)
                (Refers-or lo hi (node b ss) r after_ref e after (in_node r e below)
                  beside_after))))

    ge_node :
        InBranch (ge_ref cmp target (branch_at b ss p)) (search_ge cmp target (branch_at b ss p))
        → Refers lo hi
            (node b ss)
            (ge_ref cmp target (node b ss))
            (search_ge cmp target (node b ss))
    unfolding Refers entry_in
    ge_node below =
        let T = branch_at b ss p in
        let r = ge_ref cmp target T in
        let e = search_ge cmp target T in
        let after = entry_after ss p in
        let after_ref = ref_after b ss p in
        let gives = search_ge-node o target low d lo hi b ss some_key tree in
        let leaves = ge_ref-node target low d lo hi b ss some_key tree in
        elim (Bool-cases (has_key o target (keys ss))) [
          | inl there ↦
              let (k, v, at, _, _) =
                entry_at-has_key o target lo ss (keys-Increasing o target low d lo hi b ss tree)
                  there in
              let found : ge_ref cmp target (node b ss) ≡ some (node b ss, p) =
                leaves ∙ rw there refl in
              rw found
                (whole-IsPart low d lo hi b ss some_key tree, (k, v, at, gives ∙ rw there at))
          | inr absent ↦
              let ref_here : ge_ref cmp target (node b ss)
                  ≡ (if is_null T then after_ref else or_ref r after_ref) =
                leaves ∙ rw absent refl in
              let entry_here : search_ge cmp target (node b ss)
                  ≡ (if is_null T then after else or_else e after) =
                gives ∙ rw absent refl in
              subst (Refers lo hi (node b ss) (ge_ref cmp target (node b ss))) (sym entry_here) (
                subst
                  (λ q. Refers lo hi (node b ss) q (if is_null T then after else or_else e after))
                  (sym ref_here)
                  (Refers-if (is_null T) lo hi (node b ss) after_ref (or_ref r after_ref) after
                    (or_else e after) beside_after
                    (Refers-or lo hi (node b ss) r after_ref e after (in_node r e below)
                      beside_after)))
        ]

  -- The search above a key leaves a reference to the entry that it gives.
  pub gt_ref-Refers :
      (target : K) (low d lo hi : ℕ) (t : Node K)
      → 1 ≤ low
      → IsTree o low d lo hi t
      → Refers lo hi t (gt_ref cmp target t) (search_gt cmp target t)
  unfolding IsTree gt_ref search_gt descend Refers
  gt_ref-Refers target low zero lo hi null some_key tree = refl
  gt_ref-Refers target low zero lo hi (node b ss) some_key tree = absurd tree
  gt_ref-Refers target low (suc d) lo hi null some_key tree = absurd tree
  gt_ref-Refers target low (suc d) lo hi (node b ss) some_key tree =
      gt_node target low d lo hi b ss some_key tree (
        gt_ref-Refers target min_count d (lo_at o (place o target ss) lo ss)
          (hi_at o (place o target ss) hi ss) (branch_at b ss (place o target ss)) (omega arith)
          (branch_of o target low d lo hi b ss tree))

  -- The search from a key on leaves a reference to the entry that it gives.
  pub ge_ref-Refers :
      (target : K) (low d lo hi : ℕ) (t : Node K)
      → 1 ≤ low
      → IsTree o low d lo hi t
      → Refers lo hi t (ge_ref cmp target t) (search_ge cmp target t)
  unfolding IsTree ge_ref search_ge descend Refers
  ge_ref-Refers target low zero lo hi null some_key tree = refl
  ge_ref-Refers target low zero lo hi (node b ss) some_key tree = absurd tree
  ge_ref-Refers target low (suc d) lo hi null some_key tree = absurd tree
  ge_ref-Refers target low (suc d) lo hi (node b ss) some_key tree =
      ge_node target low d lo hi b ss some_key tree (
        ge_ref-Refers target min_count d (lo_at o (place o target ss) lo ss)
          (hi_at o (place o target ss) hi ss) (branch_at b ss (place o target ss)) (omega arith)
          (branch_of o target low d lo hi b ss tree))
