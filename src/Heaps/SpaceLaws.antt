-- ===== src/Heaps/SpaceLaws.antt =====
-- The size that src/sassimplespace.cpp finds for a block, and what a space made in it is.
use sphde.Base.{
  sub64, add64, ℕ, zero, suc, ◌+◌, ◌-◌, ◌*◌, ◌^◌, ◌≤◌, ◌<◌, ◌≡◌, refl, ap, ◌∙◌, ◌⊎◌, inl, inr, true,
  false, ltb, none, some, arith, dec_lt,
}
use native.Mathlib.Nat.{mul-le-mul_left}
use sphde.Heaps.Block.{Block, check_type, check_sig, type_mask, type_check_mask, init_block}
use sphde.Heaps.Stack.{default_page}
use sphde.Heaps.Space.{
  double_until, block_size_for, init, init_internal, to_addr, from_addr, free_space,
  free_space_no_lock,
}

pow_pos : (n : ℕ) → 1 ≤ 2 ^ n
pow_pos zero = omega arith
pow_pos (suc n) = omega (arith, pow_pos n)

doubled : (p n : ℕ) → p * 2 ^ suc n ≡ (p + p) * 2 ^ n
doubled p n = let step : 2 ^ suc n ≡ 2 * 2 ^ n = omega arith in ap (λ x. p * x) step ∙ omega arith

double_until-done : (fuel min p : ℕ) → min ≤ p → double_until (suc fuel) min p ≡ some p
unfolding double_until
double_until-done fuel min p l = let test : ltb p min ≡ false = ground (arith, l) in rw test refl

double_until-more :
    (fuel min p : ℕ) → p < min → double_until (suc fuel) min p ≡ double_until fuel min (add64 p p)
unfolding double_until
double_until-more fuel min p l = let test : ltb p min ≡ true = ground (arith, l) in rw test refl

-- The loop stops at the first size that is enough, where the fuel is that many doublings.
double_until-some :
    (fuel min p : ℕ)
    → min ≤ 2 ^ 63
    → min ≤ p * 2 ^ fuel
    → (q : ℕ) × (double_until (suc fuel) min p ≡ some q) × (min ≤ q) × ((q ≡ p) ⊎ (q < min + min))
double_until-some zero min p small enough =
    (p, double_until-done 0 min p (omega (arith, enough)), omega (arith, enough), inl refl)
double_until-some (suc fuel) min p small enough = elim (dec_lt p min) [
  | no enough_now ↦ (p, double_until-done (suc fuel) min p (omega arith), omega arith, inl refl)
  | yes more ↦
      let twice : add64 p p ≡ p + p = omega (arith, more, small) in
      let (q, e, big, tight) =
        double_until-some fuel min (p + p) small (omega (arith, enough, doubled p fuel)) in
      (
        q,
        double_until-more (suc fuel) min p more ∙ ap (λ r. double_until (suc fuel) min r) twice ∙ e,
        big,
        inr (ground (arith, more, tight)),
      )
]

-- The loop for a size above 2 ^ 63 never stops: the block's size runs over to 0.
double_until-zero : (fuel min : ℕ) → 0 < min → double_until fuel min 0 ≡ none
unfolding double_until
double_until-zero zero min l = refl
double_until-zero (suc fuel) min l = double_until-more fuel min 0 l ∙ double_until-zero fuel min l

double_until-none :
    (j fuel min p : ℕ) → p * 2 ^ j ≡ 2 ^ 63 → 2 ^ 63 < min → double_until fuel min p ≡ none
unfolding double_until
double_until-none j zero min p e l = refl
double_until-none zero (suc fuel) min p e l =
    let over : add64 p p ≡ 0 = omega (arith, e) in
    double_until-more fuel min p (omega (arith, e, l))
    ∙ rw over (double_until-zero fuel min (omega (arith, l)))
double_until-none (suc j) (suc fuel) min p e l =
    let twice : (p + p) * 2 ^ j ≡ 2 ^ 63 = omega (arith, e, doubled p j) in
    let small : p + p ≤ 2 ^ 63 = omega (arith, twice, mul-le-mul_left (p + p) (pow_pos j)) in
    let no_wrap : add64 p p ≡ p + p = omega (arith, small) in
    double_until-more fuel min p (omega (arith, small, l))
    ∙ rw no_wrap (double_until-none j fuel min (p + p) twice l)

-- For a space of at most 2 ^ 63 bytes with the page of its header, the loop for the block's size stops after
-- at most 51 doublings, at a size that holds both and is the least one or less than twice what it has to hold.
pub block_size_lem :
    (space_size : ℕ)
    → space_size + default_page ≤ 2 ^ 63
    → (q : ℕ) × (block_size_for 52 space_size ≡ some q)
      × (space_size + default_page ≤ q)
      × ((q ≡ 8192) ⊎ (q < 2 * (space_size + default_page)))
unfolding block_size_for
block_size_lem space_size small =
    let start : add64 space_size default_page ≡ space_size + default_page = omega (arith, small) in
    let (q, e, big, tight) =
      double_until-some 51 (space_size + default_page) 8192 small (omega (arith, small)) in
    (q, ap (λ m. double_until 52 m 8192) start ∙ e, big, ground (arith, tight))

-- For a space of more than 2 ^ 63 bytes with the page of its header, below 2 ^ 64, the loop for the block's size
-- runs out of any fuel.
pub block_size_none :
    (space_size fuel : ℕ)
    → 2 ^ 63 < space_size + default_page
    → space_size + default_page < 2 ^ 64
    → block_size_for fuel space_size ≡ none
unfolding block_size_for
block_size_none space_size fuel large fits =
    let start : add64 space_size default_page ≡ space_size + default_page = omega (arith, fits) in
    ap (λ m. double_until fuel m 8192) start
    ∙ double_until-none 50 fuel (space_size + default_page) 8192 refl large

-- A space made in a block in memory that holds it gives back its block from its address, keeps to the block, and
-- has what is behind it for free space.
pub space_lem :
    (addr block_size space_size : ℕ) (memory : ℕ → Block)
    → addr + block_size < 2 ^ 64
    → space_size + default_page ≤ block_size
    → memory addr ≡ (init addr block_size space_size).block
    → (to_addr (init addr block_size space_size) ≡ some (addr + default_page))
      × (from_addr memory (addr + default_page) ≡ some addr)
      × (free_space (init addr block_size space_size) ≡ block_size - default_page - space_size)
unfolding init init_internal init_block to_addr from_addr free_space free_space_no_lock check_type
    check_sig type_mask type_check_mask
space_lem addr block_size space_size memory fits holds stands =
    let start : add64 addr default_page ≡ addr + default_page = omega (arith, fits, holds) in
    let back : sub64 (addr + default_page) default_page ≡ addr = omega (arith, fits, holds) in
    (rw start refl, rw back (rw stands refl), omega (arith, fits, holds))
