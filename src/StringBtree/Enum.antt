-- ===== src/StringBtree/Enum.antt =====
-- src/sasstringbtreeenum.cpp: the enumeration of a B-tree of strings, as one thread sees it between the
-- lock and the unlock.
--
-- What the step finds, and the order in which it looks, are those of src/sasindexenum.cpp with `strcmp` for
-- the comparison. Beside it the code keeps a count, and an enumeration can start at a string.
use sphde.Base.{
  sub64, ℕ, zero, suc, ◌-◌, ◌≡◌, refl, Bool, true, ltb, ◌==◌, if◌then◌else◌, List, [], ◌∷◌, Option,
  none, some, arith,
}
use sphde.Index.Nodes.{null, node, count, branch_at, is_null}
use sphde.Index.Enum
use sphde.Index.Enum.{Enumeration, Ref, entry_in, is_below, gt_ref, from_ref, from_root}
use sphde.StringBtree.Text.{Text, is_text, compare_texts}
use sphde.StringBtree.Map.{StringBtree}

-- `__SBEnumeration`; `curcount` is a `long`, as its bit pattern.
pub record StringEnum (limit : ℕ) : Type 0 where
  pub enumeration : Enumeration (Text limit)
  pub curcount : ℕ

-- `entryString[startkey_len - 2] -= 1`, of a string that is not empty: a last byte of 1 ends the string.
unfoldable pub lower_last : List ℕ → List ℕ
lower_last [] = []
lower_last (x ∷ []) = if x == 1 then [] else (x - 1) ∷ []
lower_last (x ∷ y ∷ ys) = x ∷ lower_last (y ∷ ys)

pub is_text-nil : (n : ℕ) → is_text n [] ≡ true
unfolding is_text
is_text-nil zero = refl
is_text-nil (suc n) = refl

pub is_text-lower_last :
    (n : ℕ) (xs : List ℕ) → is_text n xs ≡ true → is_text n (lower_last xs) ≡ true
unfolding is_text lower_last
is_text-lower_last n [] e = e
is_text-lower_last zero (x ∷ xs) e = absurd (ground (arith, e))
is_text-lower_last (suc n) (x ∷ []) e = ground (arith, e, is_text-nil n)
is_text-lower_last (suc n) (x ∷ y ∷ ys) e = ground (arith, e, is_text-lower_last n (y ∷ ys))

module _ {limit : ℕ} where
  -- The empty string
  abbrev pub empty_text : Text limit
  empty_text = record { bytes = []; valid = is_text-nil limit }

  -- The string with its last byte lowered
  unfoldable pub lowered : Text limit → Text limit
  unfolding lower_last
  lowered a = record {
    bytes = lower_last a.bytes;
    valid = is_text-lower_last limit a.bytes a.valid;
  }

  -- An enumeration with the count of the tree
  unfoldable pub counted :
      StringBtree limit → Option (Enumeration (Text limit)) → Option (StringEnum limit)
  counted t none = none
  counted t (some e) = some (record { enumeration = e; curcount = t.entry_count })

  -- `SASStringBTreeEnumCreate`
  unfoldable pub create : StringBtree limit → Option (StringEnum limit)
  unfolding counted
  create t = counted t (Enum.create compare_texts empty_text t)

  -- `SASStringBTreeEnumCreateStartAt`
  unfoldable pub create_start_at : StringBtree limit → Text limit → Option (StringEnum limit)
  unfolding lowered counted
  create_start_at t start = elim t.max_key [
    | none ↦ none
    | some bound ↦
        if is_below compare_texts start bound
        then if t.mod_count == 0
          then none
          else counted t (
              some (record {
                curkey = lowered start;
                ref = none;
                curmod = t.mod_count;
                has_more = is_below compare_texts start bound;
              }))
        else none
  ]

  -- `SASStringBTreeEnumHasMore`, `Count` and `Current`
  unfoldable pub enum_has_more : StringEnum limit → Bool
  enum_has_more e = e.enumeration.has_more

  unfoldable pub enum_count : StringEnum limit → ℕ
  enum_count e = e.curcount

  unfoldable pub enum_current : StringEnum limit → Text limit
  enum_current e = e.enumeration.curkey

  -- The `if (stringenum->hasmore) ... else if (found)` behind a step that found the entry at the
  -- reference
  unfoldable pub count_at : Text limit → Ref (Text limit) → ℕ → ℕ
  unfolding entry_in
  count_at bound r curcount = elim (entry_in r) [
    | none ↦ 0
    | some (k, v) ↦ if is_below compare_texts k bound then sub64 curcount 1 else 1
  ]

  -- The count behind the search from `ref`: one that goes down a branch and finds an entry lowers it too.
  unfoldable pub count_from : Text limit → Text limit → Ref (Text limit) → ℕ → ℕ
  unfolding count_at
  count_from key bound (null, p) curcount = curcount
  count_from key bound (node b ss, p) curcount =
      if ltb p (count ss)
      then if is_null (branch_at b ss p)
        then count_at bound (node b ss, suc p) curcount
        else elim (gt_ref compare_texts key (node b ss)) [
          | none ↦ sub64 curcount 1
          | some r ↦ count_at bound r (sub64 curcount 1)
        ]
      else curcount

  unfoldable pub count_from_ref : StringEnum limit → StringBtree limit → Text limit → ℕ
  unfolding count_from
  count_from_ref e t bound = elim e.enumeration.ref [
    | none ↦ e.curcount
    | some r ↦
        if t.mod_count == e.enumeration.curmod
        then count_from e.enumeration.curkey bound r e.curcount
        else e.curcount
  ]

  -- The count behind a step: what is found from the root sets it to that of the tree.
  unfoldable pub next_count : StringEnum limit → StringBtree limit → ℕ
  unfolding count_from_ref
  next_count e t = elim t.max_key [
    | none ↦ e.curcount
    | some bound ↦
        if is_below compare_texts e.enumeration.curkey bound
        then elim (from_ref compare_texts e.enumeration t) [
          | some r ↦ count_from_ref e t bound
          | none ↦ elim (from_root compare_texts e.enumeration t) [
            | some r ↦ t.entry_count
            | none ↦ count_from_ref e t bound
          ]
        ]
        else e.curcount
  ]

  -- `SASStringBTreeEnumNext`
  unfoldable pub enum_next : StringEnum limit → StringBtree limit → Option ℕ × StringEnum limit
  unfolding next_count
  enum_next e t =
      let (value, moved) = Enum.enum_next compare_texts e.enumeration t in
      (value, record { enumeration = moved; curcount = next_count e t })
