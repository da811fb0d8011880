-- ===== src/Index/Beside.antt =====
-- The entries on the two sides of a branch of a node of src/sasindexnode.cpp, and how the searches for
-- the nearest key go on there.
use sphde.Base.{
  ℕ, zero, suc, ◌+◌, ◌≤◌, ◌<◌, ◌≡◌, inl, inr, refl, true, false, ltb, Option, none, some, arith,
  dec_lt,
}
use sphde.Index.Nodes.{Node, node, Slots, nil, slot, count, branch_at}
use sphde.Index.Order.{KeyOrder}
use sphde.Index.Shape.{Has, HasIn, HasBut, Has-branch_at, Slotted, Slotted-branch_at, lo_at, hi_at}
use sphde.Index.Entries.{Bounded, slots_bounds, outside}
use sphde.Index.Search.{entry_at, or_else, entry_after, entry_here}

module _ {K : Type 0} (o : KeyOrder K) where
  open o use {rank}

  -- The entry of the least rank from `a` on, where there is one.
  unfoldable pub LeastFrom : ℕ → Node K → Option (K × ℕ) → Type 0
  LeastFrom a t none = (x : K) (w : ℕ) → Has x w t → rank x < a
  LeastFrom a t (some (k, v)) =
      Has k v t × (a ≤ rank k) × ((x : K) (w : ℕ) → Has x w t → a ≤ rank x → rank k ≤ rank x)

  -- The entry of the greatest rank below `a`, where there is one.
  unfoldable pub GreatestBelow : ℕ → Node K → Option (K × ℕ) → Type 0
  GreatestBelow a t none = (x : K) (w : ℕ) → Has x w t → a ≤ rank x
  GreatestBelow a t (some (k, v)) =
      Has k v t × (rank k < a) × ((x : K) (w : ℕ) → Has x w t → rank x < a → rank x ≤ rank k)

  -- What stands right behind and right before a branch.
  unfoldable pub Behind : ℕ → ℕ → ℕ → Node K → Slots K → Option (K × ℕ) → Type 0
  Behind p lo hi b ss none = (x : K) (w : ℕ) → HasBut x w p b ss → rank x < lo_at o p lo ss
  Behind p lo hi b ss (some (k, v)) = HasBut k v p b ss × (rank k ≡ hi_at o p hi ss)

  unfoldable pub Before : ℕ → ℕ → ℕ → Node K → Slots K → Option (K × ℕ) → Type 0
  Before p lo hi b ss none = (x : K) (w : ℕ) → HasBut x w p b ss → hi_at o p hi ss ≤ rank x
  Before p lo hi b ss (some (k, v)) = HasBut k v p b ss × (rank k + 1 ≡ lo_at o p lo ss)

  module _ (P : ℕ → ℕ → Node K → Type 0) (bounded : Bounded o P) where
    pub behind_at :
        (p lo hi : ℕ) (b : Node K) (ss : Slots K)
        → Slotted o P lo hi b ss
        → p < count ss
        → (k : K) × (v : ℕ) × (entry_at ss (suc p) ≡ some (k, v))
          × HasBut k v p b ss
          × (rank k ≡ hi_at o p hi ss)
    unfolding entry_at HasBut HasIn hi_at count Slotted
    behind_at p lo hi b nil s l = absurd (omega (arith, l))
    behind_at zero lo hi b (slot k v c ss) s l = (k, v, refl, inl (refl, refl), refl)
    behind_at (suc p) lo hi b (slot k v c ss) (s, lt, rest) l =
        let (k', v', e, has, e') = behind_at p (rank k + 1) hi c ss rest (omega (arith, l)) in
        (k', v', e, inr (inr has), e')

    pub before_at :
        (p lo hi : ℕ) (b : Node K) (ss : Slots K)
        → Slotted o P lo hi b ss
        → 1 ≤ p
        → p ≤ count ss
        → (k : K) × (v : ℕ) × (entry_at ss p ≡ some (k, v))
          × HasBut k v p b ss
          × (rank k + 1 ≡ lo_at o p lo ss)
    unfolding entry_at HasBut HasIn lo_at count Slotted
    before_at zero lo hi b ss s one l = absurd (omega (arith, one))
    before_at (suc p) lo hi b nil s one l = absurd (omega (arith, l))
    before_at (suc zero) lo hi b (slot k v c ss) s one l =
        (k, v, refl, inr (inl (refl, refl)), refl)
    before_at (suc (suc p)) lo hi b (slot k v c ss) (s, lt, rest) one l =
        let (k', v', e, has, e') =
          before_at (suc p) (rank k + 1) hi c ss rest (omega arith) (omega (arith, l)) in
        (k', v', e, inr (inr has), e')

    last_hi : (p lo hi : ℕ) (b : Node K) (ss : Slots K) → p ≡ count ss → hi_at o p hi ss ≡ hi
    unfolding hi_at count
    last_hi p lo hi b nil e = refl
    last_hi zero lo hi b (slot k v c ss) e = absurd (omega (arith, e))
    last_hi (suc p) lo hi b (slot k v c ss) e = last_hi p lo hi c ss (omega (arith, e))

    first_lo : (p lo : ℕ) (ss : Slots K) → p ≡ 0 → lo_at o p lo ss ≡ lo
    unfolding lo_at
    first_lo p lo ss e = rw e refl

    module _ (p lo hi : ℕ) (b : Node K) (ss : Slots K) (s : Slotted o P lo hi b ss)
        (here : p ≤ count ss) where
      but_bounds : (x : K) (w : ℕ) → HasBut x w p b ss → (lo ≤ rank x) × (rank x < hi)
      but_bounds x w h =
          slots_bounds o P bounded lo hi b ss s x w ((Has-branch_at x w p b ss here).1 (inr h))

      pub entry_after-Behind : Behind p lo hi b ss (entry_after ss p)
      unfolding Behind entry_after
      entry_after-Behind = elim (dec_lt p (count ss)) [
        | yes more ↦
            let t : ltb p (count ss) ≡ true = ground (arith, more) in
            let n : p + 1 ≡ suc p = omega arith in
            let (k, v, e, has, e') = behind_at p lo hi b ss s more in rw t (rw n (rw e (has, e')))
        | no last ↦
            let t : ltb p (count ss) ≡ false = ground (arith, last) in
            let top = last_hi p lo hi b ss (omega (arith, last, here)) in
            rw t (λ x w h.
              grind (arith, top, but_bounds x w h, outside o P bounded p lo hi b ss s x w h))
      ]

      pub entry_here-Before : Before p lo hi b ss (entry_here ss p)
      unfolding Before entry_here
      entry_here-Before = elim (dec_lt 0 p) [
        | yes some_before ↦
            let t : ltb 0 p ≡ true = ground (arith, some_before) in
            let (k, v, e, has, e') = before_at p lo hi b ss s some_before here in
            rw t (rw e (has, e'))
        | no first ↦
            let t : ltb 0 p ≡ false = ground (arith, first) in
            let start = first_lo p lo ss (omega (arith, first)) in
            rw t (λ x w h.
              grind (arith, start, but_bounds x w h, outside o P bounded p lo hi b ss s x w h))
      ]

      under :
          (x : K) (w : ℕ)
          → Has x w (branch_at b ss p)
          → (lo_at o p lo ss ≤ rank x) × (rank x < hi_at o p hi ss)
      under =
          (bounded (lo_at o p lo ss) (hi_at o p hi ss) (branch_at b ss p)
            (Slotted-branch_at o P p lo hi b ss here s)).1

      -- The search goes on in the branch, and if nothing is there, right beside it.
      pub least_of :
          (a : ℕ) (below after : Option (K × ℕ))
          → lo_at o p lo ss ≤ a
          → a ≤ hi_at o p hi ss
          → LeastFrom a (branch_at b ss p) below
          → Behind p lo hi b ss after
          → LeastFrom a (node b ss) (or_else below after)
      unfolding LeastFrom Behind or_else
      least_of a none none l u least after =
          λ x w h. grind (arith, least x w, after x w, Has-branch_at x w p b ss here, l)
      least_of a none (some (k, v)) l u least (has, e) = (
        (Has-branch_at k v p b ss here).1 (inr has),
        omega (arith, e, u),
        λ x w h above. grind (
          arith,
          least x w,
          e,
          l,
          outside o P bounded p lo hi b ss s x w,
          Has-branch_at x w p b ss here,
        ),
      )
      least_of a (some (k, v)) after l u (has, above, least) after' = (
        (Has-branch_at k v p b ss here).1 (inl has),
        above,
        λ x w h above'. grind (
          arith,
          least x w,
          l,
          under k v has,
          outside o P bounded p lo hi b ss s x w,
          Has-branch_at x w p b ss here,
        ),
      )

      pub greatest_of :
          (a : ℕ) (below before : Option (K × ℕ))
          → lo_at o p lo ss ≤ a
          → a ≤ hi_at o p hi ss
          → GreatestBelow a (branch_at b ss p) below
          → Before p lo hi b ss before
          → GreatestBelow a (node b ss) (or_else below before)
      unfolding GreatestBelow Before or_else
      greatest_of a none none l u greatest before =
          λ x w h. grind (arith, greatest x w, before x w, Has-branch_at x w p b ss here, u)
      greatest_of a none (some (k, v)) l u greatest (has, e) = (
        (Has-branch_at k v p b ss here).1 (inr has),
        omega (arith, e, l),
        λ x w h below. grind (
          arith,
          greatest x w,
          e,
          u,
          outside o P bounded p lo hi b ss s x w,
          Has-branch_at x w p b ss here,
        ),
      )
      greatest_of a (some (k, v)) before l u (has, below, greatest) before' = (
        (Has-branch_at k v p b ss here).1 (inl has),
        below,
        λ x w h below'. grind (
          arith,
          greatest x w,
          u,
          under k v has,
          outside o P bounded p lo hi b ss s x w,
          Has-branch_at x w p b ss here,
        ),
      )
