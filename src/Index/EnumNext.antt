-- ===== src/Index/EnumNext.antt =====
-- The enumeration of src/sasindexenum.cpp gives the entries in the order of their keys.
use sphde.Base.{ℕ, ◌+◌, ◌≤◌, ◌<◌, ◌≡◌, ◌≢◌, ◌⊎◌, Bool, ltb, Option, none, some, arith}
use sphde.Index.Nodes.{Node}
use sphde.Index.Order.{KeyOrder}
use sphde.Index.Shape.{Has, IsTree}
use sphde.Index.Beside.{LeastFrom}
use sphde.Index.Map.{Index}
use sphde.Index.Enum.{Ref, Enumeration, entry_in, is_below}
use sphde.Index.EnumRef.{IsPart}

module _ {K : Type 0} (o : KeyOrder K) where
  open o use {cmp, rank, cmp_lem}

  -- The key is the greatest of the tree's.
  abbrev pub IsGreatest : K → Node K → Type 0
  IsGreatest m t = ((v : ℕ) × Has m v t) × ((x : K) (w : ℕ) → Has x w t → rank x ≤ rank m)

  -- The enumeration is at its start, or the index has changed, or its reference is to the entry of its key.
  abbrev pub Follows : ℕ → Index K → Enumeration K → Type 0
  Follows hi i e =
      (e.ref ≡ none)
      ⊎ ((r : Ref K) × (e.ref ≡ some r) × (i.mod_count ≢ e.curmod))
      ⊎ ((n : Node K) × (p : ℕ) × (v : ℕ) × (e.ref ≡ some (n, p))
          × (i.mod_count ≡ e.curmod)
          × IsPart o 0 hi i.root n
          × (entry_in (n, p) ≡ some (e.curkey, v)))

  -- The least rank that the enumeration still has to give.
  abbrev pub rank_from : Enumeration K → ℕ
  rank_from e = elim e.ref [ none ↦ rank e.curkey | some r ↦ rank e.curkey + 1 ]

  pub is_below_lem : (a b : K) → is_below cmp a b ≡ ltb (rank a) (rank b)
  unfolding is_below
  is_below_lem a b = rw (is_below, cmp_lem a b) (ground arith)

  rank_from_at :
      (key : K) (ref : Option (Ref K)) (changes : ℕ) (more : Bool) (n : ℕ)
      → rank key < n
      → rank_from (record { curkey = key; ref = ref; curmod = changes; has_more = more }) ≤ n
  rank_from_at key none changes more n l = omega (arith, l)
  rank_from_at key (some r) changes more n l = omega (arith, l)

  pub rank_from-le : (e : Enumeration K) (n : ℕ) → rank e.curkey < n → rank_from e ≤ n
  rank_from-le e n l = rank_from_at e.curkey e.ref e.curmod e.has_more n l

  module _ (hi d : ℕ) (i : Index K) (m : K) (tree : IsTree o 1 d 0 hi i.root)
      (greatest : IsGreatest m i.root) where
    -- What the enumeration gives where a reference is found.
    abbrev Gives : ℕ → Enumeration K → Option ℕ × Enumeration K → Type 0
    Gives a e (value, e') =
        (k : K) × (v : ℕ) × LeastFrom o a i.root (some (k, v))
        × (value ≡ some v)
        × (e'.curkey ≡ k)
        × (e'.has_more ≡ is_below cmp k m)
        × Follows hi i e'
        × (e'.ref ≢ none)
