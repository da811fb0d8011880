-- ===== src/Bitv/Runs.antt =====
-- Runs of free units in a word, and what the search for one in src/bitv.c finds.
use sphde.Base.{
  ℕ, zero, suc, ◌+◌, ◌≤◌, ◌<◌, ◌≡◌, ap, sym, ◌∙◌, Bool, true, false, ◌&&◌, ltb, leb, Bool-cases,
  inl, inr, none, some, arith, dec_lt, ℕ_discrete,
}
use sphde.Bitv.Word.{Word, bits_per_long, ◌&w◌, shr, clz, is_zero}
use sphde.Bitv.Units.{units_to_mask}
use sphde.Bitv.Alloc.{fits_at, scan, places_from, attempt}
use sphde.Bitv.WordLaws.{word_eq-true, word_eq_intro, is_zero-false, clz-before}

-- Bit `k` belongs to the run of `units` bits from `i` on.
abbrev pub in_run : ℕ → ℕ → ℕ → Bool
in_run i units k = leb i k && ltb k (i + units)

-- The `units` bits from `i` on lie inside the word and are 1.
abbrev pub IsRun : Word → ℕ → ℕ → Type 0
IsRun a i units = (i + units ≤ bits_per_long) × ((k : ℕ) → i ≤ k → k < i + units → a k ≡ true)

-- The mask of a request, moved to bit `i`, is that run.
pub shr-units_to_mask :
    (units i k : ℕ) → 1 ≤ units → shr (units_to_mask units) i k ≡ in_run i units k
shr-units_to_mask units i k l = ground (arith, l)

pub fits_at-true :
    (a : Word) (units i : ℕ)
    → 1 ≤ units
    → i + units ≤ bits_per_long
    → fits_at a (units_to_mask units) i ≡ true
    → IsRun a i units
unfolding fits_at
fits_at-true a units i l r h = (
  r,
  λ k lo hi. ground (
    arith,
    word_eq-true (a &w shr (units_to_mask units) i) (shr (units_to_mask units) i) h k
        (omega (arith, r, hi)),
    shr-units_to_mask units i k l,
    lo,
    hi,
  ),
)

IsRun-fits_at :
    (a : Word) (units i : ℕ)
    → 1 ≤ units
    → IsRun a i units
    → fits_at a (units_to_mask units) i ≡ true
unfolding fits_at
IsRun-fits_at a units i l (r, ones) =
    word_eq_intro (a &w shr (units_to_mask units) i) (shr (units_to_mask units) i) (λ k m.
      elim (Bool-cases (in_run i units k)) [
        | inl y ↦ ground (arith, ones k (ground (arith, y)) (ground (arith, y)))
        | inr n ↦ ground (arith, shr-units_to_mask units i k l, n)
      ])

-- The scan finds the first place of its range where the request fits, and none only where it fits
-- nowhere in the range.
pub scan-some :
    (n : ℕ) (cur req : Word) (k i : ℕ)
    → scan n cur req k ≡ some i
    → (k ≤ i)
      × (i < k + n)
      × (fits_at cur req i ≡ true)
      × ((j : ℕ) → k ≤ j → j < i → fits_at cur req j ≡ false)
unfolding scan
scan-some zero cur req k i e = ground (arith, e)
scan-some (suc n) cur req k i e = elim (Bool-cases (fits_at cur req k)) [
  | inl y ↦
      let eq : k ≡ i = ground (arith, e, y) in
      (
        omega (arith, eq),
        omega (arith, eq),
        ap (fits_at cur req) (sym eq) ∙ y,
        λ j lo hi. absurd (omega (arith, eq, lo, hi)),
      )
  | inr y ↦
      let (lo, hi, at, before) = scan-some n cur req (k + 1) i (ground (arith, e, y)) in
      (
        omega (arith, lo),
        omega (arith, hi),
        at,
        λ j lo' hi'. elim (ℕ_discrete j k) [
          | yes w ↦ ap (fits_at cur req) w ∙ y
          | no w ↦ before j (omega arith) hi'
        ],
      )
]

scan-none :
    (n : ℕ) (cur req : Word) (k : ℕ)
    → scan n cur req k ≡ none
    → (j : ℕ) → k ≤ j
    → j < k + n
    → fits_at cur req j ≡ false
unfolding scan
scan-none zero cur req k e j lo hi = absurd (omega arith)
scan-none (suc n) cur req k e j lo hi = elim (Bool-cases (fits_at cur req k)) [
  | inl y ↦ absurd (ground (arith, e, y))
  | inr y ↦ elim (ℕ_discrete j k) [
    | yes w ↦ ap (fits_at cur req) w ∙ y
    | no w ↦ scan-none n cur req (k + 1) (ground (arith, e, y)) j (omega arith) (omega arith)
  ]
]

-- The first run of free units is what an attempt to allocate finds.
pub attempt-some :
    (cur : Word) (units i : ℕ)
    → 1 ≤ units
    → attempt cur units ≡ some i
    → IsRun cur i units × ((j : ℕ) → j < i → ¬ (IsRun cur j units))
unfolding attempt
attempt-some cur units i l e = elim (Bool-cases (is_zero cur)) [
  | inl z ↦ absurd (ground (arith, e, z))
  | inr z ↦ elim (dec_lt bits_per_long (clz cur + units)) [
    | yes out ↦ absurd (ground (arith, e, z, out))
    | no inside ↦
        let (lo, hi, at, before) =
          scan-some (places_from (clz cur) units) cur (units_to_mask units) (clz cur) i
            (ground (arith, e, z, inside)) in
        (
          fits_at-true cur units i l (omega (arith, lo, hi, inside)) at,
          λ j m r. elim (dec_lt j (clz cur)) [
            | yes less ↦ ground (arith, clz-before cur j less, r.1 j (omega arith) (omega arith))
            | no ge ↦ ground (arith, before j (omega arith) m, IsRun-fits_at cur units j l r)
          ],
        )
  ]
]

-- An attempt finds nothing only where no run of so many units is free.
pub attempt-none :
    (cur : Word) (units : ℕ)
    → 1 ≤ units
    → attempt cur units ≡ none
    → (j : ℕ) → ¬ (IsRun cur j units)
unfolding attempt
attempt-none cur units l e j r =
    let first = r.1 j (omega arith) (omega arith) in
    let nonzero = is_zero-false cur j (omega (arith, r.0, l)) first in
    elim (dec_lt j (clz cur)) [
      | yes less ↦ ground (arith, clz-before cur j less, first)
      | no ge ↦ ground (
        arith,
        scan-none (places_from (clz cur) units) cur (units_to_mask units) (clz cur)
            (ground (arith, e, nonzero, r.0, ge)) j (omega arith) (omega (arith, r.0, l)),
        IsRun-fits_at cur units j l r,
      )
    ]
