-- ===== src/Index/ReplaceLaws.antt =====
-- The index of src/sasindex.cpp as a map after `SASIndexReplace`.
use mathlib.Core.Path.{subst}
use sphde.Base.{
  ℕ, ◌≡◌, ◌≢◌, inl, inr, refl, sym, ap, ◌∙◌, true, false, ◌==◌, if◌then◌else◌, Option, none, some,
  arith, ℕ_discrete, Option-cases,
}
use sphde.Index.Nodes.{Node}
use sphde.Index.Order.{KeyOrder}
use sphde.Index.Shape.{Has, IsTree}
use sphde.Index.Found.{search_lem}
use sphde.Index.Lookup.{same_option}
use sphde.Index.Search.{search}
use sphde.Index.Map.{Index, value_of, get, one_more}
use sphde.Index.MapLaws.{IsIndex}
use sphde.Index.Revalue.{put_val, replace}
use sphde.Index.Revalued.{put_val_lem}

-- The value in the place of one that is there.
abbrev pub instead : ℕ → Option ℕ → Option ℕ
instead val none = none
instead val (some v) = some val

module _ {K : Type 0} (o : KeyOrder K) where
  open o use {cmp, rank, cmp_lem}

  not_found :
      (d hi : ℕ) (t : Node K) (key target : K)
      → IsTree o 1 d 0 hi t
      → ((x : K) (w : ℕ) → Has x w t → rank x ≢ rank key)
      → rank target ≡ rank key
      → search cmp target t ≡ none
  not_found d hi t key target tree none_there at = elim (Option-cases (search cmp target t)) [
    | inl nothing ↦ nothing
    | inr ((k, v), e) ↦
        let (there, same) = (search_lem o target 1 d 0 hi t (omega arith) tree k v).0 e in
        absurd (none_there k v there (same ∙ at))
  ]

  -- What is found in the tree with a value exchanged.
  revalued :
      (d hi : ℕ) (t : Node K) (key : K) (val : ℕ)
      → IsTree o 1 d 0 hi t
      → IsTree o 1 d 0 hi (put_val cmp key val t)
        × ((target : K)
            → value_of (search cmp target (put_val cmp key val t)) ≡ (
                if rank target == rank key
                then instead val (value_of (search cmp key t))
                else value_of (search cmp target t)))
  unfolding value_of
  revalued d hi t key val tree =
      let found_before = λ (target : K). search_lem o target 1 d 0 hi t (omega arith) tree in
      elim (put_val_lem o key val 1 d 0 hi t (omega arith) tree) [
        | inr (same, none_there) ↦ (
          subst (IsTree o 1 d 0 hi) (sym same) tree,
          λ target. rw same (elim (ℕ_discrete (rank target) (rank key)) [
            | yes at ↦
                let test : (rank target == rank key) ≡ true = ground (arith, at) in
                rw test (
                  rw (not_found d hi t key key tree none_there refl)
                    (ap value_of (not_found d hi t key target tree none_there at)))
            | no other ↦
                let test : (rank target == rank key) ≡ false = ground (arith, other) in rw test refl
          ]),
        )
        | inl (k, v, has_k, e, tree', has) ↦ (
          tree',
          λ target.
              let found =
                search_lem o target 1 d 0 hi (put_val cmp key val t) (omega arith) tree' in
              elim (ℕ_discrete (rank target) (rank key)) [
                | yes at ↦
                    let test : (rank target == rank key) ≡ true = ground (arith, at) in
                    let before : search cmp key t ≡ some (k, v) =
                      (found_before key k v).1 (has_k, e) in
                    let after : search cmp target (put_val cmp key val t) ≡ some (k, val) =
                      (found k val).1 ((has k val).1 (inl (refl, refl)), e ∙ sym at) in
                    rw test (rw before (rw after refl))
                | no other ↦
                    let test : (rank target == rank key) ≡ false = ground (arith, other) in
                    rw test (
                      ap value_of (
                        same_option (search cmp target (put_val cmp key val t))
                          (search cmp target t)
                          (λ (x, w).
                            grind (arith, found x w, found_before target x w, has x w, other, e))))
              ],
        )
      ]

  -- Replacing the value of a key in an index over a well-formed tree returns the value that was found by the
  -- key and leaves such an index. There the new value is found by the key if one was before, and by other
  -- keys what was found before; the counts of entries and of changes go up by 1 in either case.
  pub replace_lem :
      (hi : ℕ) (i : Index K) (key : K) (val : ℕ)
      → IsIndex o hi i
      → ((replace cmp i key val).0 ≡ get cmp i key)
        × IsIndex o hi (replace cmp i key val).1
        × ((replace cmp i key val).1.entry_count ≡ one_more i.entry_count)
        × ((replace cmp i key val).1.mod_count ≡ one_more i.mod_count)
        × ((target : K)
            → get cmp (replace cmp i key val).1 target
              ≡ (if rank target == rank key then instead val (get cmp i key) else get cmp i target))
  unfolding get replace
  replace_lem hi i key val (d, tree) =
      let (tree', found) = revalued d hi i.root key val tree in
      (refl, (d, tree'), refl, refl, found)
