-- ===== src/Bitv/Marked.antt =====
-- `bitv_dealloc`, `bitv_free_marked` and `bitv_allocated_size` of src/bitv.c and src/bitv_priv.h on
-- what `bitv_alloc_marked` gave.
use sphde.Base.{
  ℕ, ◌+◌, ◌≤◌, ◌<◌, ◌≡◌, ◌↔◌, ◌⊎◌, inl, inr, ap, sym, ◌∙◌, true, false, ◌||◌, Bool-cases, Option,
  none, some, arith, dec_lt,
}
use sphde.Bitv.Word.{Word, bits_per_long, ◌&w◌, shr, is_zero}
use sphde.Bitv.Units.{units_to_mask}
use sphde.Bitv.Free.{dealloc_internal}
use sphde.Bitv.WordLaws.{is_zero-true, is_zero_intro}
use sphde.Bitv.Runs.{in_run, shr-units_to_mask}

-- No end mark stands on a free unit.
abbrev pub Marks : Word → Word → Type 0
Marks bvec endvec = (k : ℕ) → bvec k ≡ true → endvec k ≡ false

-- The mask of a run, against the word, is zero exactly where the run's bits are.
is_zero-run :
    (v : Word) (offset units : ℕ)
    → 1 ≤ units
    → units + offset ≤ bits_per_long
    → (is_zero (v &w shr (units_to_mask units) offset) ≡ true)
      ↔ ((k : ℕ) → offset ≤ k → k < offset + units → v k ≡ false)
is_zero-run v offset units l room = (
  λ z k lo hi. ground (
    arith,
    is_zero-true (v &w shr (units_to_mask units) offset) z k (omega (arith, hi, room)),
    shr-units_to_mask units offset k l,
    lo,
    hi,
  ),
  λ free. is_zero_intro (v &w shr (units_to_mask units) offset) (λ k m.
      elim (Bool-cases (in_run offset units k)) [
        | inl y ↦ ground (arith, free k (ground (arith, y)) (ground (arith, y)))
        | inr n ↦ ground (arith, shr-units_to_mask units offset k l, n)
      ]),
)

-- Giving units back refuses, with nothing changed, those that reach past the word; otherwise it sets
-- exactly their bits, and returns 0 exactly where none of them was free.
pub dealloc_internal_lem :
    (bvec w : Word) (offset units : ℕ) (rc : Option ℕ)
    → 1 ≤ units
    → dealloc_internal bvec offset units ≡ (rc, w)
    → ((bits_per_long < units + offset) × (rc ≡ none) × (w ≡ bvec))
      ⊎ ((units + offset ≤ bits_per_long)
          × ((rc ≡ some 0) ⊎ (rc ≡ some 1))
          × ((rc ≡ some 0) ↔ ((k : ℕ) → offset ≤ k → k < offset + units → bvec k ≡ false))
          × ((k : ℕ) → w k ≡ (bvec k || in_run offset units k)))
unfolding dealloc_internal
dealloc_internal_lem bvec w offset units rc l e = elim (dec_lt bits_per_long (units + offset)) [
  | yes out ↦
      let same : dealloc_internal bvec offset units ≡ (none, bvec) = ground (arith, out) in
      inl (
        omega (arith, out),
        ap (λ (p : Option ℕ × Word). p.0) (sym e ∙ same),
        ap (λ (p : Option ℕ × Word). p.1) (sym e ∙ same),
      )
  | no inside ↦
      let (there, back) = is_zero-run bvec offset units l (omega (arith, inside)) in
      let code = ap (λ (p : Option ℕ × Word). p.0) e in
      let bits = λ (k : ℕ). ap (λ (p : Option ℕ × Word). p.1 k) e in
      inr (
        omega (arith, inside),
        ground (arith, inside, code),
        (
          λ h. there (ground (arith, inside, code, h)),
          λ free. ground (arith, inside, code, back free),
        ),
        λ k. ground (arith, inside, bits k, shr-units_to_mask units offset k l),
      )
]
