-- ===== src/Index/Order.antt =====
-- The order of the keys in a node of src/sasindexnode.cpp, and what the search in a node finds.
use Prim.Native.Nat.{Ordering, compare}
use sphde.Base.{
  ◌||◌, ℕ, zero, suc, ◌+◌, ◌-◌, ◌*◌, ◌/◌, ◌≤◌, ◌<◌, ◌≡◌, refl, ap, Bool, true, false, leb, ◌==◌,
  if◌then◌else◌, List, [], ◌∷◌, some, length, arith, dec_lt,
}
use sphde.Index.Nodes.{
  default_max, key_at, cmp_at, walk_down, double_past, probe, fix_up, position_of, search_node,
}

-- An order of keys: each has a rank, by which the comparison goes.
pub record KeyOrder (K : Type 0) : Type 0 where
  pub cmp : K → K → Ordering
  pub rank : K → ℕ
  pub cmp_lem : (a b : K) → cmp a b ≡ compare (rank a) (rank b)

module _ {K : Type 0} (k : K) (ks : List K) where
  key_at-cons : (p : ℕ) → 1 ≤ p → key_at (k ∷ ks) (p + 1) ≡ key_at ks p
  unfolding key_at
  key_at-cons zero l = absurd (omega arith)
  key_at-cons (suc p) l = ground arith

  key_at-head : (p : ℕ) → p ≡ 1 → key_at (k ∷ ks) p ≡ some k
  unfolding key_at
  key_at-head p e = rw e

module _ {K : Type 0} (o : KeyOrder K) where
  open o use {cmp, rank, cmp_lem}

  -- The ranks grow along the list, from `lo` on.
  abbrev pub Increasing : ℕ → List K → Type 0
  Increasing lo [] = Unit
  Increasing lo (k ∷ ks) = (lo ≤ rank k) × Increasing (rank k + 1) ks

  -- How many of the keys are at most the one sought, the reference for the position.
  unfoldable pub rank_in : K → List K → ℕ
  rank_in target [] = 0
  rank_in target (k ∷ ks) = if leb (rank k) (rank target) then rank_in target ks + 1 else 0

  pub rank_in-le : (target : K) (ks : List K) → rank_in target ks ≤ length ks
  unfolding rank_in
  rank_in-le target [] = omega arith
  rank_in-le target (k ∷ ks) = ground (arith, rank_in-le target ks)

  pub rank_in-above :
      (target : K) (ks : List K) (lo : ℕ)
      → rank target < lo
      → Increasing lo ks
      → rank_in target ks ≡ 0
  unfolding rank_in
  rank_in-above target [] lo l inc = refl
  rank_in-above target (k ∷ ks) lo l inc = ground arith

  -- Whether a key of that rank is there, the reference for being found.
  unfoldable pub has_key : K → List K → Bool
  has_key target [] = false
  has_key target (k ∷ ks) = rank k == rank target || has_key target ks

  pub has_key-rank_in :
      (target : K) (ks : List K) (lo : ℕ)
      → Increasing lo ks
      → has_key target ks ≡ true
      → 1 ≤ rank_in target ks
  unfolding has_key rank_in
  has_key-rank_in target [] lo inc h = absurd (ground (arith, h))
  has_key-rank_in target (k ∷ ks) lo inc h =
      ground
        (arith, has_key-rank_in target ks (rank k + 1) inc.1, rank_in-above target ks (rank k + 1))

  cmp_at-has_key :
      (target : K) (ks : List K) (lo : ℕ)
      → Increasing lo ks
      → 1 ≤ rank_in target ks
      → elim (cmp_at cmp target ks (rank_in target ks)) [ Ordering.eq ↦ true | _ ↦ false ]
        ≡ has_key target ks
  unfolding has_key rank_in cmp_at
  cmp_at-has_key target [] lo inc one = absurd (omega arith)
  cmp_at-has_key target (k ∷ ks) lo inc one =
      let later = cmp_at-has_key target ks (rank k + 1) inc.1 in
      elim (dec_lt 0 (rank_in target ks)) [
        | yes some_later ↦ ground (
          arith,
          later some_later,
          key_at-cons k ks (rank_in target ks) some_later,
          has_key-rank_in target ks (rank k + 1) inc.1,
          rank_in-above target ks (rank k + 1),
        )
        | no last ↦ ground (
          arith,
          cmp_lem target k,
          key_at-head k ks (rank_in target ks + 1) (omega arith),
          has_key-rank_in target ks (rank k + 1) inc.1,
        )
      ]

  -- What a comparison at a position says of the place of the key.
  abbrev Says : ℕ → ℕ → Ordering → Type 0
  Says r p Ordering.lt = r < p
  Says r p Ordering.eq = r ≡ p
  Says r p Ordering.gt = p ≤ r

  cmp_at-Says :
      (target : K) (ks : List K) (lo p : ℕ)
      → Increasing lo ks
      → 1 ≤ p
      → p ≤ length ks
      → Says (rank_in target ks) p (cmp_at cmp target ks p)
  unfolding cmp_at key_at rank_in
  cmp_at-Says target [] lo p inc l h = absurd (omega arith)
  cmp_at-Says target (k ∷ ks) lo zero inc l h = absurd (omega arith)
  cmp_at-Says target (k ∷ ks) lo (suc zero) inc l h =
      ground (arith, cmp_lem target k, rank_in-above target ks (rank k + 1))
  cmp_at-Says target (k ∷ ks) lo (suc (suc p)) inc l h =
      ground
        (arith, cmp_at-Says target ks (rank k + 1) (suc p), rank_in-above target ks (rank k + 1))

  module _ (target : K) (ks : List K) (lo : ℕ) (inc : Increasing lo ks) where
    abbrev r : ℕ
    r = rank_in target ks

    says : (p : ℕ) → 1 ≤ p → p ≤ length ks → Says r p (cmp_at cmp target ks p)
    says p l h = cmp_at-Says target ks lo p inc l h

    -- Walking down from a position not before the place ends at it.
    walk_down_lem : (p : ℕ) → p ≤ length ks → r ≤ p → 1 ≤ r → walk_down cmp target ks p ≡ r
    unfolding walk_down
    walk_down_lem zero h up low = omega (arith, up)
    walk_down_lem (suc zero) h up low = omega (arith, up, low)
    walk_down_lem (suc (suc p)) h up low =
        ground (arith, says (suc (suc p)) (omega arith) h, walk_down_lem (suc p))

    -- A power of 2, as far as halving shows it.
    abbrev Halves : ℕ → ℕ → Type 0
    Halves zero m = m ≡ 1
    Halves (suc j) m = (m ≡ 2 * (m / 2)) × (1 ≤ m / 2) × Halves j (m / 2)

    probe_stop : (fuel p : ℕ) → probe cmp target ks fuel p 0 ≡ p
    unfolding probe
    probe_stop zero p = refl
    probe_stop (suc fuel) p = refl

    -- The place stays within twice the step of the position, which ends at it or one behind it.
    probe_lem :
        (j fuel p m : ℕ)
        → Halves j m
        → j < fuel
        → 2 * m ≤ p
        → p ≤ r + 2 * m
        → r < p + 2 * m
        → (1 ≤ probe cmp target ks fuel p m)
          × (probe cmp target ks fuel p m ≤ r + 1)
          × (r ≤ probe cmp target ks fuel p m)
    unfolding probe
    probe_lem j zero p m hm hf lp up low = absurd (omega arith)
    probe_lem zero (suc fuel) p m hm hf lp up low = ground (
      arith,
      hm,
      says p,
      rank_in-le target ks,
      probe_stop fuel (p - m),
      probe_stop fuel (p + m),
      probe_stop fuel p,
    )
    probe_lem (suc j) (suc fuel) p m hm hf lp up low = ground (
      arith,
      hm,
      says p,
      rank_in-le target ks,
      probe_lem j fuel (p - m) (m / 2) hm.2 (omega arith),
      probe_lem j fuel (p + m) (m / 2) hm.2 (omega arith),
      probe_stop fuel p,
    )

    -- The loop that doubles leaves the least power of 2 above the count.
    double_past_lem :
        8 ≤ length ks
        → length ks ≤ default_max
        → (j : ℕ) × (p : ℕ) × (double_past cmp target ks 16 8 ≡ 2 * p)
          × Halves j (p / 2)
          × (j < 16)
          × (2 * (p / 2) ≡ p)
          × (length ks < 2 * p)
    unfolding double_past
    double_past_lem big small = elim (dec_lt (length ks) 16) [
      | yes a ↦
          (2, 8, ground (arith, a, big), omega arith, omega arith, omega arith, omega (arith, a))
      | no a ↦ elim (dec_lt (length ks) 32) [
        | yes b ↦ (
          3,
          16,
          ground (arith, a, b, big),
          omega arith,
          omega arith,
          omega arith,
          omega (arith, b),
        )
        | no b ↦ (
          4,
          32,
          ground (arith, a, b, big, small),
          omega arith,
          omega arith,
          omega arith,
          omega (arith, small),
        )
      ]
    ]

    fix_up_lem : (p : ℕ) → 1 ≤ p → p ≤ r + 1 → r ≤ p → fix_up cmp target ks p ≡ r
    unfolding fix_up
    fix_up_lem p one up low = ground (arith, says p, rank_in-le target ks)

    -- The position before the last comparison.
    position_of_lem : 1 ≤ r → length ks ≤ default_max → position_of cmp target ks ≡ r
    unfolding position_of
    position_of_lem one small = elim (dec_lt (length ks) 8) [
      | yes few ↦ ground (arith, few, walk_down_lem (length ks), rank_in-le target ks)
      | no many ↦
          let (j, p, doubled, halves, lt, even, past) = double_past_lem (omega arith) small in
          let start : double_past cmp target ks 16 8 / 2 ≡ p = omega (arith, doubled) in
          let (low, up, above) =
            probe_lem j 16 p (p / 2) halves lt (omega (arith, even)) (omega (arith, even))
              (omega (arith, even, past, rank_in-le target ks)) in
          let found = fix_up_lem (probe cmp target ks 16 p (p / 2)) low up above in
          let at : fix_up cmp target ks (
                probe cmp target ks 16 (double_past cmp target ks 16 8 / 2)
                  (double_past cmp target ks 16 8 / 2 / 2))
              ≡ r =
            rw start found in
          ground (arith, many, at)
    ]

    -- Among 1 to 63 keys of increasing rank, the search in a node gives whether the key is there and the
    -- number of keys that are not above it.
    pub search_node_lem :
        1 ≤ length ks
        → length ks ≤ default_max
        → search_node cmp target ks ≡ (has_key target ks, rank_in target ks)
    unfolding search_node
    search_node_lem some_key small = elim (dec_lt 0 r) [
      | yes one ↦
          let found = cmp_at-has_key target ks lo inc one in
          let pos = position_of_lem one small in
          ground (arith, says 1, found, pos, ap (cmp_at cmp target ks) pos)
      | no none_before ↦ ground (arith, says 1, has_key-rank_in target ks lo inc)
    ]
