-- ===== src/Index/Pushed.antt =====
-- The insertion in a well-formed tree of src/sasindexnode.cpp.
use mathlib.Core.Path.{subst}
use sphde.Base.{
  ℕ, zero, suc, ◌+◌, ◌≤◌, ◌<◌, ◌≡◌, ◌≢◌, ◌⊎◌, ◌↔◌, inl, inr, refl, sym, ap, ◌∙◌, true, false, ltb,
  if◌then◌else◌, none, some, arith, dec_lt, Bool-cases,
}
use sphde.Index.Nodes.{
  Node, null, node, Slots, nil, slot, default_max, min_count, keys, count, branch_at, set_branch,
  descend, descend-node,
}
use sphde.Index.Order.{KeyOrder, has_key}
use sphde.Index.Shape.{
  Has, HasIn, HasBut, Has-branch_at, Has-set_branch, Slotted, IsTree, lo_at, hi_at, bounds_at,
  tree_le, count-set_branch, Slotted-set_branch, Slotted-push_in,
}
use sphde.Index.Entries.{entry_at-has_key}
use sphde.Index.Found.{place, place_le, keys-Increasing, node_lem, branch_of, Has-branch_of}
use sphde.Index.Halves.{split_lem, count-push_in}
use sphde.Index.Joined.{Has-join, Has-push_in, Slotted-join}
use sphde.Index.Insert.{
  push_in, Pushed, done, up, duplicate, take_up, after_push, push_step, push_down, new_root, insert,
}

module _ {K : Type 0} (o : KeyOrder K) where
  open o use {cmp, rank, cmp_lem}

  -- The result of a push is well formed and has just these entries.
  unfoldable pub Fits : ℕ → ℕ → ℕ → ℕ → (K → ℕ → Type 0) → Pushed K → Type 0
  Fits low d lo hi E (done t) = IsTree o low d lo hi t × ((x : K) (w : ℕ) → Has x w t ↔ E x w)
  Fits low d lo hi E (up l k v r) =
      IsTree o min_count d lo (rank k) l
      × (rank k < hi)
      × IsTree o min_count d (rank k + 1) hi r
      × ((x : K) (w : ℕ) → (Has x w l ⊎ ((x ≡ k) × (w ≡ v)) ⊎ Has x w r) ↔ E x w)
  Fits low d lo hi E duplicate = ⊥

  Fits-same :
      (low d lo hi : ℕ) (E E' : K → ℕ → Type 0)
      → ((x : K) (w : ℕ) → E x w ↔ E' x w)
      → (r : Pushed K) → Fits low d lo hi E r
      → Fits low d lo hi E' r
  unfolding Fits
  Fits-same low d lo hi E E' same (done t) (tree, has) =
      (tree, λ x w. (λ h. (same x w).0 ((has x w).0 h), λ e. (has x w).1 ((same x w).1 e)))
  Fits-same low d lo hi E E' same (up l k v r) (left, lt, right, has) = (
    left,
    lt,
    right,
    λ x w. (λ h. (same x w).0 ((has x w).0 h), λ e. (has x w).1 ((same x w).1 e)),
  )
  Fits-same low d lo hi E E' same duplicate f = absurd f

  -- A node takes the entry in, or is split.
  take_up_lem :
      (low d lo hi : ℕ) (b : Node K) (ss : Slots K) (k : K) (v : ℕ) (right : Node K) (pos : ℕ)
      → pos ≤ count ss
      → low ≤ count ss
      → count ss ≤ default_max
      → Slotted o (IsTree o min_count d) lo hi b (push_in pos k v right ss)
      → Fits low
          (suc d)
          lo
          hi
          (λ x w. Has x w (node b (push_in pos k v right ss)))
          (take_up b ss k v right pos)
  unfolding take_up Fits IsTree
  take_up_lem low d lo hi b ss k v right pos here enough most s =
      elim (dec_lt (count ss) default_max) [
        | yes room ↦
            let t : ltb (count ss) default_max ≡ true = ground (arith, room) in
            let n = count-push_in pos k v right ss here in
            rw (t, take_up)
              ((omega (arith, n, enough), omega (arith, n, room), s), λ x w. (λ h. h, λ h. h))
        | no full ↦
            let t : ltb (count ss) default_max ≡ false = ground (arith, full) in
            let (init, k', v', c, yr, e, j, i, least, fits) =
              split_lem k v right b ss pos here (omega (arith, most, full)) in
            let (left, lt, after) =
              (Slotted-join o (IsTree o min_count d) (tree_le o min_count d) lo hi b init k' v' c
                  yr).0
                (rw j s) in
            rw (t, take_up)
              (rw e (
                (omega (arith, i), omega (arith, i), left),
                lt,
                (least, fits, after),
                λ x w.
                    let (apart, together) = Has-join x w b init k' v' c yr in
                    (
                      λ h. subst (λ s'. Has x w (node b s')) j (together h),
                      λ h. apart (subst (λ s'. Has x w (node b s')) (sym j) h),
                    ),
              ))
      ]

  -- The node takes back what the push in a branch leaves.
  after_push_lem :
      (low d lo hi : ℕ) (b : Node K) (ss : Slots K) (pos : ℕ) (E : K → ℕ → Type 0)
      → IsTree o low (suc d) lo hi (node b ss)
      → pos ≤ count ss
      → (r : Pushed K) → Fits min_count d (lo_at o pos lo ss) (hi_at o pos hi ss) E r
      → Fits low (suc d) lo hi (λ x w. E x w ⊎ HasBut x w pos b ss) (after_push pos b ss r)
  unfolding Fits IsTree after_push
  after_push_lem low d lo hi b ss pos E (enough, most, s) here (done c) (tree, has) = (
    (
      rw (count-set_branch pos c b ss) enough,
      rw (count-set_branch pos c b ss) most,
      Slotted-set_branch o (IsTree o min_count d) pos lo hi c b ss here s tree,
    ),
    λ x w. grind (arith, Has-set_branch x w pos c b ss here, has x w),
  )
  after_push_lem low d lo hi b ss pos E (enough, most, s) here (up l k v r) (left, lt, right, has) =
      let n = count-set_branch pos l b ss in
      Fits-same low (suc d) lo hi
        (λ x w.
          Has x w (node (set_branch pos l b ss).0 (push_in pos k v r (set_branch pos l b ss).1)))
        (λ x w. E x w ⊎ HasBut x w pos b ss)
        (λ x w. grind (
          arith,
          Has-push_in x w pos k v r (set_branch pos l b ss).0 (set_branch pos l b ss).1,
          Has-set_branch x w pos l b ss here,
          has x w,
        ))
        (take_up (set_branch pos l b ss).0 (set_branch pos l b ss).1 k v r pos)
        (take_up_lem low d lo hi (set_branch pos l b ss).0 (set_branch pos l b ss).1 k v r pos
          (rw n here) (rw n enough) (rw n most)
          (Slotted-push_in o (IsTree o min_count d) pos lo hi l k v r b ss here s left lt right))
  after_push_lem low d lo hi b ss pos E tree here duplicate f = absurd f

  new_root_lem :
      (d lo hi : ℕ) (E : K → ℕ → Type 0) (r : Pushed K)
      → Fits 1 d lo hi E r
      → (t : Node K) × (new_root r ≡ some t)
        × (IsTree o 1 d lo hi t ⊎ IsTree o 1 (suc d) lo hi t)
        × ((x : K) (w : ℕ) → Has x w t ↔ E x w)
  unfolding Fits new_root IsTree Slotted Has HasIn count
  new_root_lem d lo hi E (done t) (tree, has) = (t, refl, inl tree, has)
  new_root_lem d lo hi E (up l k v r) (left, lt, right, has) = (
    node l (slot k v r nil),
    refl,
    inr (omega arith, omega arith, (left, lt, right)),
    λ x w. grind (arith, has x w),
  )
  new_root_lem d lo hi E duplicate f = absurd f

  module _ (key : K) (val : ℕ) where
    -- The entries of the tree with the new one.
    abbrev pub With : Node K → K → ℕ → Type 0
    With t x w = Has x w t ⊎ ((x ≡ key) × (w ≡ val))

    pub push_down-node :
        (low d lo hi : ℕ) (b : Node K) (ss : Slots K)
        → 1 ≤ low
        → IsTree o low (suc d) lo hi (node b ss)
        → push_down cmp key val (node b ss) ≡ (
            if has_key o key (keys ss)
            then duplicate
            else after_push
                (place o key ss)
                b
                ss
                (push_down cmp key val (branch_at b ss (place o key ss))))
    unfolding push_down push_step
    push_down-node low d lo hi b ss some_key tree =
        descend-node (up null key val null) (push_step cmp key val) b ss
        ∙ rw (node_lem o key low d lo hi b ss tree some_key) refl

    -- A push finds the key there, or leaves the entries with the new one.
    pub push_down_lem :
        (low d lo hi : ℕ) (t : Node K)
        → 1 ≤ low
        → IsTree o low d lo hi t
        → lo ≤ rank key
        → rank key < hi
        → ((push_down cmp key val t ≡ duplicate)
            × ((k : K) × (v : ℕ) × Has k v t × (rank k ≡ rank key)))
          ⊎ (((k : K) (v : ℕ) → Has k v t → rank k ≢ rank key)
              × Fits low d lo hi (With t) (push_down cmp key val t))
    unfolding IsTree Has Fits push_down descend after_push
    push_down_lem low zero lo hi null some_key tree l u =
        inr (λ k v h. absurd h, (l, u, omega (arith, u), λ x w. ground arith))
    push_down_lem low zero lo hi (node b ss) some_key tree l u = absurd tree
    push_down_lem low (suc d) lo hi null some_key tree l u = absurd tree
    push_down_lem low (suc d) lo hi (node b ss) some_key tree l u =
        let step = push_down-node low d lo hi b ss some_key tree in
        elim (Bool-cases (has_key o key (keys ss))) [
          | inl there ↦
              let (k, v, _, e, has) =
                entry_at-has_key o key lo ss (keys-Increasing o key low d lo hi b ss tree) there in
              inl (ground (arith, step, there), (k, v, inr has, e))
          | inr absent ↦
              let (l', u') = bounds_at o key lo hi ss l u absent in
              let gives : push_down cmp key val (node b ss)
                  ≡ after_push (place o key ss) b ss
                      (push_down cmp key val (branch_at b ss (place o key ss))) =
                ground (arith, step, absent) in
              elim (push_down_lem min_count d (lo_at o (place o key ss) lo ss)
                (hi_at o (place o key ss) hi ss) (branch_at b ss (place o key ss)) (omega arith)
                (branch_of o key low d lo hi b ss tree) l' u') [
                  | inl (e, (k, v, h, same)) ↦ inl (
                    gives ∙ ap (after_push (place o key ss) b ss) e,
                    (
                      k,
                      v,
                      (Has-branch_at k v (place o key ss) b ss (place_le o key ss)).1 (inl h),
                      same,
                    ),
                  )
                  | inr (none_there, fits) ↦ inr (
                    λ k v h e.
                        none_there k v (Has-branch_of o key low d lo hi b ss tree absent k v h e) e,
                    rw gives (
                        Fits-same low (suc d) lo hi
                          (λ x w.
                            With (branch_at b ss (place o key ss)) x w
                            ⊎ HasBut x w (place o key ss) b ss)
                          (With (node b ss))
                          (λ x w.
                            grind
                              (arith, Has-branch_at x w (place o key ss) b ss (place_le o key ss)))
                          (after_push (place o key ss) b ss
                            (push_down cmp key val (branch_at b ss (place o key ss))))
                          (after_push_lem low d lo hi b ss (place o key ss)
                            (With (branch_at b ss (place o key ss))) tree (place_le o key ss)
                            (push_down cmp key val (branch_at b ss (place o key ss))) fits)),
                  )
                ]
        ]

    -- The insertion of a key within the bounds of a well-formed tree gives nothing just where the key is
    -- there, and else a well-formed tree, as deep or deeper by 1, of the entries with the new one.
    pub insert_lem :
        (d lo hi : ℕ) (t : Node K)
        → IsTree o 1 d lo hi t
        → lo ≤ rank key
        → rank key < hi
        → ((insert cmp key val t ≡ none) × ((k : K) × (v : ℕ) × Has k v t × (rank k ≡ rank key)))
          ⊎ (((k : K) (v : ℕ) → Has k v t → rank k ≢ rank key)
              × ((t' : Node K) × (insert cmp key val t ≡ some t')
                  × (IsTree o 1 d lo hi t' ⊎ IsTree o 1 (suc d) lo hi t')
                  × ((x : K) (w : ℕ) → Has x w t' ↔ With t x w)))
    unfolding insert
    insert_lem d lo hi t tree l u = elim (push_down_lem 1 d lo hi t (omega arith) tree l u) [
      | inl (e, there) ↦ inl (ap new_root e, there)
      | inr (absent, fits) ↦
          inr (absent, new_root_lem d lo hi (With t) (push_down cmp key val t) fits)
    ]
