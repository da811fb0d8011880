-- ===== src/Bitv/Estimate.antt =====
-- `BITV_SPACE_EST` of src/bitv.c, the test that decides on another try.
use sphde.Base.{
  ℕ, zero, suc, ◌+◌, ◌-◌, ◌≤◌, ◌<◌, ◌≡◌, true, Bool-cases, arith, dec_lt, ℕ_discrete, [], ◌∷◌,
  Option-cases, inl, inr,
}
use sphde.Bitv.Word.{Word, bits_per_long, shr, inv, ◌&w◌, clz, ctz, zeros_behind, word_eq}
use sphde.Bitv.Units.{space_est, units_to_mask}
use sphde.Bitv.Alloc.{attempt, marked_loop, granted}
use sphde.Bitv.WordLaws.{is_zero-false, clz-before}
use sphde.Bitv.Runs.{IsRun, attempt-none}

zeros_behind-le : (n : ℕ) (a : Word) (k : ℕ) → k < n → a k ≡ true → zeros_behind n a + k + 1 ≤ n
unfolding zeros_behind
zeros_behind-le zero a k l one = absurd (omega arith)
zeros_behind-le (suc n) a k l one = elim (Bool-cases (a n)) [
  | inl y ↦ ground (arith, y, l)
  | inr y ↦ elim (ℕ_discrete k n) [
    | yes e ↦ absurd (ground (arith, e, y, one))
    | no e ↦ ground (arith, zeros_behind-le n a k (omega arith) one, y)
  ]
]

-- The estimate never gives up a word in which the request fits.
pub IsRun-space_est :
    (v : Word) (j units : ℕ) → 1 ≤ units → IsRun v j units → space_est v units ≡ true
unfolding space_est ctz
IsRun-space_est v j units l r =
    let first = r.1 j (omega arith) (omega arith) in
    let last = r.1 (j + units - 1) (omega arith) (omega arith) in
    let behind = zeros_behind-le bits_per_long v (j + units - 1) (omega (arith, r.0, l)) last in
    let nonzero = is_zero-false v j (omega (arith, r.0, l)) first in
    elim (dec_lt j (clz v)) [
      | yes less ↦ absurd (ground (arith, clz-before v j less, first))
      | no ge ↦ ground (arith, nonzero, behind, r.0, ge)
    ]

-- When another thread changes the word once, before the first swap, `bitv_alloc_marked` tries again,
-- and succeeds where the word that it finds has room.
pub marked_loop-retry :
    (cur now : Word) (units j : ℕ)
    → 1 ≤ units
    → IsRun cur j units
    → (k : ℕ) → IsRun now k units
    → (i : ℕ) × (w : Word) × (req : Word) × (marked_loop cur units 0 (now ∷ []) ≡ granted i w req)
unfolding marked_loop
marked_loop-retry cur now units j l r k s = elim (Option-cases (attempt cur units)) [
  | inl n ↦ absurd (attempt-none cur units l n j r)
  | inr (i, y) ↦ elim (Option-cases (attempt now units)) [
    | inl n ↦ absurd (attempt-none now units l n k s)
    | inr (m, z) ↦ elim (Bool-cases (word_eq now cur)) [
      | inl same ↦ (
        i,
        cur &w inv (shr (units_to_mask units) i),
        shr (units_to_mask units) i,
        ground (arith, y, same),
      )
      | inr differ ↦ (
        m,
        now &w inv (shr (units_to_mask units) m),
        shr (units_to_mask units) m,
        ground (arith, y, z, differ, IsRun-space_est now k units l s),
      )
    ]
  ]
]
