-- ===== src/StringBtree/Laws.antt =====
-- The B-tree of strings of src/sasstringbtree.cpp as a map from strings.
use Prim.Native.Nat.{Ordering}
use sphde.Base.{
  ◌==◌, ℕ, ◌^◌, ◌≡◌, ◌≢◌, ◌⊎◌, ◌↔◌, inl, inr, refl, ap, ◌∙◌, Bool, true, false, if◌then◌else◌, List,
  [], ◌∷◌, Option, none, some, arith, ℕ_discrete,
}
use sphde.Index.Map.{one_more}
use sphde.Index.MapLaws
use sphde.Index.MapLaws.{IsIndex}
use sphde.Index.ReplaceLaws
use sphde.Index.ReplaceLaws.{instead}
use sphde.StringBtree.Text.{
  strcmp, Text, rank_text, rank_text-lt, compare_texts, compare_texts_lem, text_order,
}
use sphde.StringBtree.Map.{StringBtree, get, put, replace, remove_key}

-- `strcmp (a, b) == 0`
unfoldable pub same_text : {limit : ℕ} → Text limit → Text limit → Bool
unfolding compare_texts
same_text a b = elim (compare_texts a b) [ Ordering.eq ↦ true | _ ↦ false ]

-- Strings compare as equal where their bytes are the same.
strcmp_eq : (xs ys : List ℕ) → (strcmp xs ys ≡ Ordering.eq) ↔ (xs ≡ ys)
unfolding strcmp
strcmp_eq [] [] = (λ e. refl, λ e. refl)
strcmp_eq [] (y ∷ ys) = (λ e. absurd (ground (arith, e)), λ e. absurd (ground (arith, e)))
strcmp_eq (x ∷ xs) [] = (λ e. absurd (ground (arith, e)), λ e. absurd (ground (arith, e)))
strcmp_eq (x ∷ xs) (y ∷ ys) =
    let (sound, complete) = strcmp_eq xs ys in
    (
      (λ e. elim (ℕ_discrete x y) [
        | yes same ↦
            let rest : strcmp xs ys ≡ Ordering.eq = ground (arith, e, same) in
            rw same (ap (λ zs. y ∷ zs) (sound rest))
        | no other ↦ absurd (ground (arith, e, other))
      ]),
      λ e.
          let same : x ≡ y = cc e in
          let rest : xs ≡ ys = cc e in ground (arith, same, complete rest),
    )

module _ {limit : ℕ} where
  same_text-rank : (a b : Text limit) → (rank_text a == rank_text b) ≡ same_text a b
  unfolding same_text
  same_text-rank a b = rw (same_text, compare_texts_lem a b) refl

  by_text :
      (a b : Text limit) (r s : Option ℕ)
      → (if rank_text a == rank_text b then r else s) ≡ (if same_text a b then r else s)
  by_text a b r s = ap (λ c. if c then r else s) (same_text-rank a b)

  -- Two strings are the same for `strcmp` where they have the same bytes.
  pub same_text_lem : (a b : Text limit) → (same_text a b ≡ true) ↔ (a.bytes ≡ b.bytes)
  unfolding same_text compare_texts
  same_text_lem a b =
      let (sound, complete) = strcmp_eq a.bytes b.bytes in ground (arith, sound, complete)

  -- The tree is well formed, or has no root.
  abbrev pub IsStringBtree : StringBtree limit → Type 0
  IsStringBtree t = IsIndex text_order (256 ^ limit) t

  -- In a well-formed tree of strings: where the string is not there, putting it in succeeds and leaves such
  -- a tree, and by it its value is found and by other strings what was found before; where it is there, this
  -- fails and leaves the tree, but the count goes up.
  pub put_text_lem :
      (t : StringBtree limit) (key : Text limit) (val : ℕ)
      → IsStringBtree t
      → ((get t key ≡ none)
          × ((put t key val).0 ≡ true)
          × IsStringBtree (put t key val).1
          × ((target : Text limit)
              → get (put t key val).1 target
                ≡ (if same_text target key then some val else get t target)))
        ⊎ ((get t key ≢ none)
            × (put t key val ≡ (false, record t { entry_count = one_more t.entry_count })))
  unfolding get put text_order
  put_text_lem t key val whole =
      elim (MapLaws.put_lem text_order (256 ^ limit) t key val whole (rank_text-lt key)) [
        | inl (nothing, ok, whole', found) ↦ inl (
          nothing,
          ok,
          whole',
          λ target. found target ∙ by_text target key (some val) (get t target),
        )
        | inr failed ↦ inr failed
      ]

  -- Replacing the value of a string in a well-formed tree of strings returns the value that was found by it
  -- and leaves such a tree. There the new value is found by the string if one was before, and by other
  -- strings what was found before; the count goes up in either case.
  pub replace_text_lem :
      (t : StringBtree limit) (key : Text limit) (val : ℕ)
      → IsStringBtree t
      → ((replace t key val).0 ≡ get t key)
        × IsStringBtree (replace t key val).1
        × ((replace t key val).1.entry_count ≡ one_more t.entry_count)
        × ((target : Text limit)
            → get (replace t key val).1 target
              ≡ (if same_text target key then instead val (get t key) else get t target))
  unfolding get replace text_order
  replace_text_lem t key val whole =
      let (same, whole', count, changes, found) =
        ReplaceLaws.replace_lem text_order (256 ^ limit) t key val whole in
      (
        same,
        whole',
        count,
        λ target. found target ∙ by_text target key (instead val (get t key)) (get t target),
      )

  -- A removal from a well-formed tree of strings gives the value that was found by the string and leaves
  -- such a tree, where nothing is found by it, and by other strings what was found before.
  pub remove_text_lem :
      (t : StringBtree limit) (key : Text limit)
      → IsStringBtree t
      → ((remove_key t key).0 ≡ get t key)
        × IsStringBtree (remove_key t key).1
        × ((target : Text limit)
            → get (remove_key t key).1 target
              ≡ (if same_text target key then none else get t target))
  unfolding get remove_key text_order
  remove_text_lem t key whole =
      let (same, whole', found) = MapLaws.remove_key_lem text_order (256 ^ limit) t key whole in
      (same, whole', λ target. found target ∙ by_text target key none (get t target))
