-- ===== src/Index/MapLaws.antt =====
-- The index of src/sasindex.cpp as a map: what is found after a change of it.
use mathlib.Core.Path.{subst}
use sphde.Base.{
  ℕ, suc, ◌<◌, ◌≡◌, ◌≢◌, ◌⊎◌, inl, inr, refl, sym, ap, ◌∙◌, Bool, true, false, ◌==◌, if◌then◌else◌,
  Option, none, some, arith, Option-cases,
}
use sphde.Index.Nodes.{Node, null, node, Slots, descend}
use sphde.Index.Order.{KeyOrder}
use sphde.Index.Shape.{IsTree}
use sphde.Index.Found.{search_lem}
use sphde.Index.Pushed.{insert_lem}
use sphde.Index.Deleted.{delete_lem}
use sphde.Index.Lookup.{search-insert, search-delete}
use sphde.Index.Search.{search}
use sphde.Index.Insert.{insert, initialize, push_down, new_root}
use sphde.Index.Delete.{delete}
use sphde.Index.Map.{
  Index, value_of, get, after_insert, with_root, put_in, put, without_key, remove_from, remove_key,
  one_more,
}

module _ {K : Type 0} (o : KeyOrder K) where
  open o use {cmp, rank, cmp_lem}

  -- The root is that of a well-formed tree, or NULL.
  abbrev pub IsIndex : ℕ → Index K → Type 0
  IsIndex hi i = (d : ℕ) × IsTree o 1 d 0 hi i.root

  value_of-if :
      (b : Bool) (r s : Option (K × ℕ))
      → value_of (if b then r else s) ≡ (if b then value_of r else value_of s)
  value_of-if true r s = refl
  value_of-if false r s = refl

  insert-null : (key : K) (val : ℕ) → insert cmp key val null ≡ some (initialize key val)
  unfolding insert new_root push_down descend initialize
  insert-null key val = refl

  search-null : (target : K) → search cmp target null ≡ none
  unfolding search descend
  search-null target = refl

  -- What insertion gives, by the searches before and after.
  inserted :
      (hi d : ℕ) (t : Node K) (key : K) (val : ℕ)
      → IsTree o 1 d 0 hi t
      → rank key < hi
      → ((search cmp key t ≡ none)
          × ((t' : Node K) × (insert cmp key val t ≡ some t')
              × ((d' : ℕ) × IsTree o 1 d' 0 hi t')
              × ((target : K)
                  → value_of (search cmp target t') ≡ (
                      if rank target == rank key
                      then some val
                      else value_of (search cmp target t)))))
        ⊎ ((value_of (search cmp key t) ≢ none) × (insert cmp key val t ≡ none))
  unfolding value_of
  inserted hi d t key val tree small =
      elim (insert_lem o key val d 0 hi t tree (omega arith) small) [
        | inl (e, (k, v, has, same)) ↦
            let found = (search_lem o key 1 d 0 hi t (omega arith) tree k v).1 (has, same) in
            inr (λ nothing. absurd (ground (arith, ap value_of found, nothing)), e)
        | inr (absent, (t', e, deep, has)) ↦ inl (
          elim (Option-cases (search cmp key t)) [
            | inl nothing ↦ nothing
            | inr ((k, v), found) ↦
                let (there, same) = (search_lem o key 1 d 0 hi t (omega arith) tree k v).0 found in
                absurd (absent k v there same)
          ],
          (
            t',
            e,
            elim deep [ inl tree' ↦ (d, tree') | inr tree' ↦ (suc d, tree') ],
            λ target.
                ap value_of (search-insert o d 0 hi t t' key target val tree (omega arith) small e)
                ∙ value_of-if (rank target == rank key) (some (key, val)) (search cmp target t),
          ),
        )
      ]

  put_in-some :
      (i : Index K) (key : K) (val : ℕ) (b : Node K) (ss : Slots K) (t : Node K)
      → insert cmp key val (node b ss) ≡ some t
      → put_in cmp i key val (node b ss) ≡ (true, with_root cmp i key t)
  unfolding put_in after_insert
  put_in-some i key val b ss t e = ap (after_insert cmp i key) e

  put_in-none :
      (i : Index K) (key : K) (val : ℕ) (b : Node K) (ss : Slots K)
      → insert cmp key val (node b ss) ≡ none
      → put_in cmp i key val (node b ss)
        ≡ (false, record i { entry_count = one_more i.entry_count })
  unfolding put_in after_insert
  put_in-none i key val b ss e = ap (after_insert cmp i key) e

  first_put :
      (hi : ℕ) (i : Index K) (key : K) (val d : ℕ) (t : Node K)
      → t ≡ initialize key val
      → IsTree o 1 d 0 hi t
      → ((put_in cmp i key val null).0 ≡ true)
        × IsIndex hi (put_in cmp i key val null).1
        × ((target : K)
            → search cmp target (put_in cmp i key val null).1.root ≡ search cmp target t)
  unfolding put_in
  first_put hi i key val d t e tree = (
    refl,
    subst (λ t. (d' : ℕ) × IsTree o 1 d' 0 hi t) e (d, tree),
    λ target. ap (search cmp target) (sym e),
  )

  put_at :
      (hi : ℕ) (i : Index K) (key : K) (val d : ℕ) (t : Node K)
      → IsTree o 1 d 0 hi t
      → rank key < hi
      → ((value_of (search cmp key t) ≡ none)
          × ((put_in cmp i key val t).0 ≡ true)
          × IsIndex hi (put_in cmp i key val t).1
          × ((target : K)
              → value_of (search cmp target (put_in cmp i key val t).1.root)
                ≡ (if rank target == rank key then some val else value_of (search cmp target t))))
        ⊎ ((value_of (search cmp key t) ≢ none)
            × (put_in cmp i key val t ≡ (false, record i { entry_count = one_more i.entry_count })))
  unfolding value_of with_root
  put_at hi i key val d null tree small = elim (inserted hi d null key val tree small) [
    | inl (nothing, (t', e, tree', found)) ↦
        let both : some t' ≡ some (initialize key val) = sym e ∙ insert-null key val in
        let first : t' ≡ initialize key val = cc both in
        let (ok, whole, alike) = first_put hi i key val tree'.0 t' first tree'.1 in
        inl (ap value_of nothing, ok, whole, λ target. ap value_of (alike target) ∙ found target)
    | inr (there, e) ↦ absurd (there (ap value_of (search-null key)))
  ]
  put_at hi i key val d (node b ss) tree small =
      elim (inserted hi d (node b ss) key val tree small) [
        | inl (nothing, (t', e, tree', found)) ↦
            rw (put_in-some i key val b ss t' e) (inl (ap value_of nothing, refl, tree', found))
        | inr (there, e) ↦ inr (there, put_in-none i key val b ss e)
      ]

  without_key-root : (i : Index K) (key : K) (t : Node K) → (without_key cmp i key t).root ≡ t
  unfolding without_key
  without_key-root i key null = refl
  without_key-root i key (node b ss) = refl

  both_none : (b : Bool) (r : Option ℕ) → r ≡ none → (if b then none else r) ≡ none
  both_none true r e = refl
  both_none false r e = e

  remove_at :
      (hi : ℕ) (i : Index K) (key : K) (d : ℕ) (t : Node K)
      → i.root ≡ t
      → IsTree o 1 d 0 hi t
      → ((remove_from cmp i key t).0 ≡ value_of (search cmp key t))
        × IsIndex hi (remove_from cmp i key t).1
        × ((target : K)
            → value_of (search cmp target (remove_from cmp i key t).1.root)
              ≡ (if rank target == rank key then none else value_of (search cmp target t)))
  unfolding get remove_from
  remove_at hi i key d null same tree =
      let found = λ (target : K). ap (λ t. value_of (search cmp target t)) same in
      let nothing = λ (target : K). ap value_of (search-null target) in
      (
        sym (nothing key),
        (d, rw same tree),
        λ target.
            found target
            ∙ nothing target
            ∙ sym (
                both_none (rank target == rank key) (value_of (search cmp target null))
                  (nothing target)),
      )
  remove_at hi i key d (node b ss) same tree =
      let (deep, has) = delete_lem o d 0 hi (node b ss) key tree in
      let root = without_key-root i key (delete cmp (node b ss) key) in
      let tree' : (d' : ℕ) × IsTree o 1 d' 0 hi (delete cmp (node b ss) key) = elim deep [
        | inl tree' ↦ (d, tree')
        | inr (d', _, tree') ↦ (d', tree')
      ] in
      (
        ap (λ t. value_of (search cmp key t)) same,
        rw root tree',
        λ target.
            ap (λ t. value_of (search cmp target t)) root
            ∙ ap value_of (search-delete o d 0 hi (node b ss) key target tree)
            ∙ value_of-if (rank target == rank key) none (search cmp target (node b ss)),
      )

  -- In an index over a well-formed tree, and for a key within its bounds: where the key is not there,
  -- putting it in succeeds and leaves such an index, and by it its value is found and by other keys what
  -- was found before; where it is there, this fails and leaves the tree, but the count goes up.
  pub put_lem :
      (hi : ℕ) (i : Index K) (key : K) (val : ℕ)
      → IsIndex hi i
      → rank key < hi
      → ((get cmp i key ≡ none)
          × ((put cmp i key val).0 ≡ true)
          × IsIndex hi (put cmp i key val).1
          × ((target : K)
              → get cmp (put cmp i key val).1 target
                ≡ (if rank target == rank key then some val else get cmp i target)))
        ⊎ ((get cmp i key ≢ none)
            × (put cmp i key val ≡ (false, record i { entry_count = one_more i.entry_count })))
  unfolding get put
  put_lem hi i key val (d, tree) small = put_at hi i key val d i.root tree small

  -- A removal from an index over a well-formed tree gives the value that was found by the key and leaves
  -- such an index, where nothing is found by the key, and by other keys what was found before.
  pub remove_key_lem :
      (hi : ℕ) (i : Index K) (key : K)
      → IsIndex hi i
      → ((remove_key cmp i key).0 ≡ get cmp i key)
        × IsIndex hi (remove_key cmp i key).1
        × ((target : K)
            → get cmp (remove_key cmp i key).1 target
              ≡ (if rank target == rank key then none else get cmp i target))
  unfolding get remove_key
  remove_key_lem hi i key (d, tree) = remove_at hi i key d i.root refl tree
