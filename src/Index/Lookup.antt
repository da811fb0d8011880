-- ===== src/Index/Lookup.antt =====
-- What the search of src/sasindexnode.cpp finds after an insertion or a deletion.
use sphde.Base.{
  ℕ, suc, ◌≤◌, ◌<◌, ◌≡◌, ◌⊎◌, ◌↔◌, inl, inr, refl, sym, true, false, ◌==◌, if◌then◌else◌, Option,
  none, some, arith, ℕ_discrete, Option-cases,
}
use sphde.Index.Nodes.{Node}
use sphde.Index.Order.{KeyOrder}
use sphde.Index.Shape.{Has, IsTree}
use sphde.Index.Found.{search_lem}
use sphde.Index.Pushed.{insert_lem}
use sphde.Index.Deleted.{delete_lem}
use sphde.Index.Search.{search}
use sphde.Index.Insert.{insert}
use sphde.Index.Delete.{delete}

-- Options that are the same values are equal.
pub same_option : {A : Type 0} (a b : Option A) → ((x : A) → (a ≡ some x) ↔ (b ≡ some x)) → a ≡ b
same_option none none same = refl
same_option none (some y) same = (same y).1 refl
same_option (some x) b same = sym ((same x).0 refl)

module _ {K : Type 0} (o : KeyOrder K) where
  open o use {cmp, rank, cmp_lem}

  -- A tree of either depth is searched alike.
  found_in :
      (d d' lo hi : ℕ) (t : Node K)
      → IsTree o 1 d lo hi t ⊎ IsTree o 1 d' lo hi t
      → (target : K) (k : K) (v : ℕ)
      → (search cmp target t ≡ some (k, v)) ↔ (Has k v t × (rank k ≡ rank target))
  found_in d d' lo hi t (inl tree) target = search_lem o target 1 d lo hi t (omega arith) tree
  found_in d d' lo hi t (inr tree) target = search_lem o target 1 d' lo hi t (omega arith) tree

  -- After the insertion of a key within the bounds of a well-formed tree, where it gave a tree, the search
  -- finds the new entry by its key, and by other keys what it found before.
  pub search-insert :
      (d lo hi : ℕ) (t t' : Node K) (key target : K) (val : ℕ)
      → IsTree o 1 d lo hi t
      → lo ≤ rank key
      → rank key < hi
      → insert cmp key val t ≡ some t'
      → search cmp target t'
        ≡ (if rank target == rank key then some (key, val) else search cmp target t)
  search-insert d lo hi t t' key target val tree l u e =
      elim (insert_lem o key val d lo hi t tree l u) [
        | inl (e', _) ↦ absurd (ground (arith, e, e'))
        | inr (absent, (t'', e', deep, has)) ↦
            let same : t'' ≡ t' = cc in
            let found = found_in d (suc d) lo hi t'' deep target in
            let found_before = search_lem o target 1 d lo hi t (omega arith) tree in
            rw (sym same) (elim (ℕ_discrete (rank target) (rank key)) [
              | yes at ↦
                  let test : (rank target == rank key) ≡ true = ground (arith, at) in
                  rw test ((found key val).1 ((has key val).1 (inr (refl, refl)), sym at))
              | no other ↦
                  let test : (rank target == rank key) ≡ false = ground (arith, other) in
                  rw test (
                    same_option (search cmp target t'') (search cmp target t)
                      (λ (k, v). grind (arith, found k v, found_before k v, has k v, other)))
            ])
      ]

  -- After a deletion from a well-formed tree the search finds nothing by the key, and by other keys what
  -- it found before.
  pub search-delete :
      (d lo hi : ℕ) (t : Node K) (key target : K)
      → IsTree o 1 d lo hi t
      → search cmp target (delete cmp t key)
        ≡ (if rank target == rank key then none else search cmp target t)
  search-delete d lo hi t key target tree =
      let (deep, has) = delete_lem o d lo hi t key tree in
      let found : (k : K) (v : ℕ)
          → (search cmp target (delete cmp t key) ≡ some (k, v))
            ↔ (Has k v (delete cmp t key) × (rank k ≡ rank target)) =
        elim deep [
          | inl tree' ↦ found_in d d lo hi (delete cmp t key) (inl tree') target
          | inr (d', _, tree') ↦ found_in d' d' lo hi (delete cmp t key) (inl tree') target
        ] in
      let found_before = search_lem o target 1 d lo hi t (omega arith) tree in
      elim (ℕ_discrete (rank target) (rank key)) [
        | yes at ↦
            let test : (rank target == rank key) ≡ true = ground (arith, at) in
            rw test (elim (Option-cases (search cmp target (delete cmp t key))) [
              | inl nothing ↦ nothing
              | inr ((k, v), e) ↦ absurd (grind (arith, (found k v).0 e, has k v, at))
            ])
        | no other ↦
            let test : (rank target == rank key) ≡ false = ground (arith, other) in
            rw test (
              same_option (search cmp target (delete cmp t key)) (search cmp target t)
                (λ (k, v). grind (arith, found k v, found_before k v, has k v, other)))
      ]
