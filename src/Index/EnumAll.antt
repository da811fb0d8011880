-- ===== src/Index/EnumAll.antt =====
-- A client of src/sasindexenum.cpp that goes on while there is more gets every entry.
use sphde.Base.{ℕ, zero, suc, ◌≤◌, ◌≡◌, ◌⊎◌, if◌then◌else◌, Option, none, some, List, [], ◌∷◌}
use sphde.Index.Order.{KeyOrder}
use sphde.Index.Shape.{Has}
use sphde.Index.Map.{Index}
use sphde.Index.MapLaws.{IsIndex}
use sphde.Index.Enum.{Enumeration, enum_has_more, enum_next}
use sphde.Index.EnumNext.{IsGreatest}

-- The value is in the list.
abbrev pub In : ℕ → List ℕ → Type 0
In w [] = ⊥
In w (v ∷ vs) = (w ≡ v) ⊎ In w vs

unfoldable listed : Option ℕ → Option (List ℕ) → Option (List ℕ)
listed none rest = rest
listed (some v) none = none
listed (some v) (some vs) = some (v ∷ vs)

module _ {K : Type 0} (o : KeyOrder K) where
  open o use {cmp, rank, cmp_lem}

  -- The values that `while (SASIndexEnumHasMore (e)) SASIndexEnumNext (e)` gets, in up to so many rounds.
  unfoldable pub drain : ℕ → Enumeration K → Index K → Option (List ℕ)
  unfolding listed enum_has_more enum_next
  drain zero e i = none
  drain (suc fuel) e i =
      let (value, e') = enum_next cmp e i in
      let rest = drain fuel e' i in if enum_has_more cmp e then listed value rest else some []

  module _ (hi : ℕ) (i : Index K) (m : K) (whole : IsIndex o hi i) (max : i.max_key ≡ some m)
      (greatest : IsGreatest o m i.root) where
    -- All the entries from a rank on are in the list.
    abbrev AllFrom : ℕ → List ℕ → Type 0
    AllFrom a vs = (x : K) (w : ℕ) → Has x w i.root → a ≤ rank x → In w vs
