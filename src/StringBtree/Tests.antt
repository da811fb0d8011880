-- ===== src/StringBtree/Tests.antt =====
-- The theorems on src/sasstringbtree.cpp at concrete strings and trees.
use sphde.Base.{◌≡◌, ◌≢◌, ◌⊎◌, refl, true, false, if◌then◌else◌, [], ◌∷◌, none, some, arith}
use sphde.Index.Nodes.{
  null, node, nil, slot, count, descend, search_node, cmp_at, keys, is_null, branch_at,
}
use sphde.Index.Shape.{Slotted, IsTree}
use sphde.Index.Enum
use sphde.Index.Map
use sphde.Index.Map.{one_more}
use sphde.StringBtree.Text.{strcmp, is_text, rank_of, Text, rank_text, compare_texts, text_order}
use sphde.StringBtree.Map.{StringBtree, get, put, remove_key}
use sphde.StringBtree.Enum.{
  StringEnum, empty_text, lowered, counted, create, create_start_at, count_at, count_from,
  count_from_ref, next_count, enum_next, enum_has_more,
}
use sphde.StringBtree.Laws.{same_text, IsStringBtree, put_text_lem, remove_text_lem}

ant_valid : is_text 8 (97 ∷ 110 ∷ 116 ∷ []) ≡ true
unfolding is_text
ant_valid = refl

abbrev ant : Text 8
ant = record { bytes = 97 ∷ 110 ∷ 116 ∷ []; valid = ant_valid }

antler_valid : is_text 8 (97 ∷ 110 ∷ 116 ∷ 108 ∷ 101 ∷ 114 ∷ []) ≡ true
unfolding is_text
antler_valid = refl

abbrev antler : Text 8
antler = record { bytes = 97 ∷ 110 ∷ 116 ∷ 108 ∷ 101 ∷ 114 ∷ []; valid = antler_valid }

bee_valid : is_text 8 (98 ∷ 101 ∷ 101 ∷ []) ≡ true
unfolding is_text
bee_valid = refl

abbrev bee : Text 8
bee = record { bytes = 98 ∷ 101 ∷ 101 ∷ []; valid = bee_valid }

abbrev two_texts : StringBtree 8
two_texts = record {
  root = node null (slot ant 1 null (slot bee 2 null nil));
  entry_count = 2;
  mod_count = 2;
  min_key = some ant;
  max_key = some bee;
}

two_texts-IsStringBtree : IsStringBtree two_texts
unfolding IsTree Slotted text_order rank_text rank_of count
two_texts-IsStringBtree = (
  1,
  (omega arith, omega arith, (omega arith, omega arith, (omega arith, omega arith, omega arith))),
)

put_text_lem_example :
    ((get two_texts antler ≡ none)
      × ((put two_texts antler 3).0 ≡ true)
      × IsStringBtree (put two_texts antler 3).1
      × ((target : Text 8)
          → get (put two_texts antler 3).1 target
            ≡ (if same_text target antler then some 3 else get two_texts target)))
    ⊎ ((get two_texts antler ≢ none)
        × (put two_texts antler 3 ≡ (false, record two_texts { entry_count = one_more 2 })))
put_text_lem_example = put_text_lem two_texts antler 3 two_texts-IsStringBtree

remove_text_lem_example :
    ((remove_key two_texts bee).0 ≡ get two_texts bee)
    × IsStringBtree (remove_key two_texts bee).1
    × ((target : Text 8)
        → get (remove_key two_texts bee).1 target
          ≡ (if same_text target bee then none else get two_texts target))
remove_text_lem_example = remove_text_lem two_texts bee two_texts-IsStringBtree

-- The enumeration begins at the empty string. The first step sets the count to that of the tree; at the
-- greatest string it is 1.
abbrev begun : StringEnum 8
begun = record {
  enumeration = record { curkey = empty_text; ref = none; curmod = 2; has_more = true };
  curcount = 2;
}

begun_runs : create two_texts ≡ some begun
unfolding create counted Enum.create Map.is_empty
begun_runs = refl

abbrev second : StringEnum 8
second = (enum_next begun two_texts).1

steps_run :
    ((enum_next begun two_texts).0 ≡ some 1)
    × (second.curcount ≡ 2)
    × ((enum_next second two_texts).0 ≡ some 2)
    × ((enum_next second two_texts).1.curcount ≡ 1)
    × (enum_has_more (enum_next second two_texts).1 ≡ false)
unfolding enum_next next_count count_from_ref count_from count_at enum_has_more Enum.enum_next
    Enum.entry_in compare_texts strcmp descend Enum.ge_ref_step search_node cmp_at keys is_null
    branch_at count
steps_run = (refl, refl, refl, refl, refl)

b_valid : is_text 8 (98 ∷ []) ≡ true
unfolding is_text
b_valid = refl

abbrev b : Text 8
b = record { bytes = 98 ∷ []; valid = b_valid }

abbrev from_b : StringEnum 8
from_b = record {
  enumeration = record { curkey = lowered b; ref = none; curmod = 2; has_more = true };
  curcount = 2;
}

from_b_runs : create_start_at two_texts b ≡ some from_b
unfolding create_start_at counted Enum.is_below compare_texts strcmp
from_b_runs = refl

-- What starts at "b" gives "ant" first.
from_b_gives : (enum_next from_b two_texts).0 ≡ some 1
unfolding enum_next lowered Enum.enum_next compare_texts strcmp descend Enum.ge_ref_step search_node
    cmp_at keys is_null branch_at count
from_b_gives = refl
