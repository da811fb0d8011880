-- ===== src/Bitv/Found.antt =====
-- What the loops of `bitv_alloc` and `bitv_alloc_marked` in src/bitv.c take, and when they end.
use sphde.Base.{
  ℕ, zero, suc, ◌+◌, ◌≤◌, ◌<◌, ◌≡◌, ◌⊎◌, inl, inr, refl, ap, sym, ◌∙◌, true, false, not, ◌&&◌, ltb,
  Bool-cases, List, [], ◌∷◌, some, arith, dec_lt, Option-cases,
}
use mathlib.Core.Path.{subst}
use sphde.Bitv.Word.{Word, bits_per_long, clz, is_zero, word_eq}
use sphde.Bitv.Units.{units_to_mask, space_est}
use sphde.Bitv.Alloc.{
  Outcome, granted, refused, stuck, scan, places_from, take_at, attempt, alloc_loop, marked_loop,
}
use sphde.Bitv.WordLaws.{is_zero-false, clz-before, word_eq-true, word_eq_intro}
use sphde.Bitv.Runs.{
  in_run, IsRun, shr-units_to_mask, scan-some, fits_at-true, attempt-some, attempt-none,
}

abbrev pub place : Outcome → ℕ
place (granted i w req) = i
place (refused w) = 0
place (stuck w) = 0

-- The word that an outcome leaves, and the mask of the units taken.
abbrev pub word : Outcome → Word
word (granted i w req) = w
word (refused w) = w
word (stuck w) = w

abbrev pub mask : Outcome → Word
mask (granted i w req) = req
mask (refused w) = w
mask (stuck w) = w

-- The first run of `units` free units of `v` is at `i`, `w` is `v` less that run, and `req` is the run.
abbrev pub Takes : ℕ → ℕ → Word → Word → Word → Type 0
Takes units i w req v =
    IsRun v i units
    × ((j : ℕ) → j < i → ¬ (IsRun v j units))
    × ((k : ℕ) → w k ≡ (v k && not (in_run i units k)))
    × ((k : ℕ) → req k ≡ in_run i units k)

-- Two words have the same 64 bits.
abbrev pub SameBits : Word → Word → Type 0
SameBits a b = (k : ℕ) → k < bits_per_long → a k ≡ b k

-- The word that is swapped has the property: the word read first, where nobody interferes or the first
-- try finds it as it was read; else, a try having found another word, the one swapped from there on.
unfoldable pub Swapped : (Word → Type 0) → Word → List Word → Type 0
Swapped p cur [] = p cur
Swapped p cur (now ∷ later) =
    (SameBits now cur × p cur) ⊎ ((¬ (SameBits now cur)) × Swapped p now later)

pub differ-SameBits : (a b : Word) → word_eq a b ≡ false → ¬ (SameBits a b)
differ-SameBits a b e same = ground (arith, e, word_eq_intro a b same)

-- A swap at the place that an attempt finds takes the first run of the word.
take_at-Takes :
    (cur : Word) (units i j : ℕ) (w req : Word)
    → 1 ≤ units
    → attempt cur units ≡ some j
    → take_at cur (units_to_mask units) j ≡ granted i w req
    → Takes units i w req cur
take_at-Takes cur units i j w req l a e =
    let (run, before) = attempt-some cur units j l a in
    let same : j ≡ i = ap place e in
    let moved = λ (k : ℕ). shr-units_to_mask units j k l in
    subst (λ (n : ℕ). Takes units n w req cur) same
      (
        run,
        before,
        λ k. ap (λ (o : Outcome). word o k) (sym e) ∙ ap (λ b. cur k && not b) (moved k),
        λ k. ap (λ (o : Outcome). mask o k) (sym e) ∙ moved k,
      )

refused_ne : (v w req : Word) (i : ℕ) → ¬ (refused v ≡ granted i w req)
refused_ne v w req i e = ground (arith, e)

-- For a request of some units, and whatever other threads make of the word between the tries: the word
-- that a granted `bitv_alloc_marked` swaps is the one read before the first try that finds it as it was
-- read, or, past the words listed, the last one found; it takes the first run of free units of that word,
-- leaves its other bits, and its mask is the run.
pub marked_loop-Takes :
    (found : List Word) (cur : Word) (units retry_cnt i : ℕ) (w req : Word)
    → 1 ≤ units
    → marked_loop cur units retry_cnt found ≡ granted i w req
    → Swapped (Takes units i w req) cur found
unfolding marked_loop Swapped
marked_loop-Takes [] cur units retry_cnt i w req l e = elim (Option-cases (attempt cur units)) [
  | inl n ↦ absurd (ground (arith, e, n))
  | inr (j, y) ↦ take_at-Takes cur units i j w req l y (ground (arith, e, y))
]
marked_loop-Takes (now ∷ later) cur units retry_cnt i w req l e =
    elim (Option-cases (attempt cur units)) [
      | inl n ↦ absurd (ground (arith, e, n))
      | inr (j, y) ↦ elim (Bool-cases (word_eq now cur)) [
        | inl same ↦ inl (
          word_eq-true now cur same,
          take_at-Takes cur units i j w req l y (ground (arith, e, y, same)),
        )
        | inr differ ↦ elim (Bool-cases (space_est now units && not (ltb 0 retry_cnt))) [
          | inl again ↦ inr (
            differ-SameBits now cur differ,
            marked_loop-Takes later now units (retry_cnt + 1) i w req l
                (ground (arith, e, y, differ, again)),
          )
          | inr over ↦ absurd (ground (arith, e, y, differ, over))
        ]
      ]
    ]

-- `bitv_alloc` looks for a place as `bitv_alloc_marked` does.
scan-attempt :
    (cur : Word) (units j : ℕ)
    → attempt cur units ≡ some j
    → (is_zero cur ≡ false)
      × (clz cur + units ≤ bits_per_long)
      × (scan (places_from (clz cur) units) cur (units_to_mask units) (clz cur) ≡ some j)
unfolding attempt
scan-attempt cur units j e = elim (Bool-cases (is_zero cur)) [
  | inl z ↦ absurd (ground (arith, e, z))
  | inr z ↦ elim (dec_lt bits_per_long (clz cur + units)) [
    | yes out ↦ absurd (ground (arith, e, z, out))
    | no inside ↦ (z, omega arith, ground (arith, e, z, inside))
  ]
]

-- Where nobody interferes and some run of units is free, `bitv_alloc` does what `bitv_alloc_marked`
-- does, and goes round its loop once.
pub alloc_loop-marked_loop :
    (cur : Word) (units j fuel retry_cnt : ℕ)
    → 1 ≤ units
    → IsRun cur j units
    → alloc_loop (suc fuel) cur units [] ≡ marked_loop cur units retry_cnt []
unfolding alloc_loop marked_loop
alloc_loop-marked_loop cur units j fuel retry_cnt l r = elim (Option-cases (attempt cur units)) [
  | inl n ↦ absurd (attempt-none cur units l n j r)
  | inr (i, y) ↦
      let (z, inside, found) = scan-attempt cur units i y in ground (arith, y, z, inside, found)
]

-- Where some unit is free that leaves room for the request, but no run of units is long enough,
-- `bitv_alloc` never leaves its loop: no fuel is enough.
pub alloc_loop-stuck :
    (fuel : ℕ) (cur : Word) (units k : ℕ) (found : List Word)
    → 1 ≤ units
    → cur k ≡ true
    → k + units ≤ bits_per_long
    → ((i : ℕ) → ¬ (IsRun cur i units))
    → alloc_loop fuel cur units found ≡ stuck cur
unfolding alloc_loop
alloc_loop-stuck zero cur units k found l one room none_free = refl
alloc_loop-stuck (suc fuel) cur units k found l one room none_free =
    let nonzero = is_zero-false cur k (omega (arith, room, l)) one in
    let inside : clz cur ≤ k = elim (dec_lt k (clz cur)) [
      | yes less ↦ absurd (ground (arith, clz-before cur k less, one))
      | no ge ↦ omega (arith, ge)
    ] in
    elim (Option-cases (scan (places_from (clz cur) units) cur (units_to_mask units) (clz cur))) [
      | inl n ↦ ground (
        arith,
        nonzero,
        inside,
        room,
        n,
        alloc_loop-stuck fuel cur units k found l one room none_free,
      )
      | inr (i, y) ↦
          let (lo, hi, at, before) =
            scan-some (places_from (clz cur) units) cur (units_to_mask units) (clz cur) i y in
          absurd (none_free i (fits_at-true cur units i l (omega (arith, lo, hi, inside, room)) at))
    ]

attempt-scan :
    (cur : Word) (units j : ℕ)
    → is_zero cur ≡ false
    → clz cur + units ≤ bits_per_long
    → scan (places_from (clz cur) units) cur (units_to_mask units) (clz cur) ≡ some j
    → attempt cur units ≡ some j
unfolding attempt
attempt-scan cur units j z inside e = ground (arith, z, inside, e)

-- One round of `bitv_alloc` that finds a place, given that later rounds take what they should.
alloc_loop_round :
    (fuel : ℕ) (found : List Word) (cur : Word) (units i j : ℕ) (w req : Word)
    → 1 ≤ units
    → is_zero cur ≡ false
    → clz cur + units ≤ bits_per_long
    → scan (places_from (clz cur) units) cur (units_to_mask units) (clz cur) ≡ some j
    → ((now : Word) (later : List Word)
        → alloc_loop fuel now units later ≡ granted i w req
        → Swapped (Takes units i w req) now later)
    → alloc_loop (suc fuel) cur units found ≡ granted i w req
    → Swapped (Takes units i w req) cur found
unfolding alloc_loop Swapped
alloc_loop_round fuel [] cur units i j w req l z inside y later_rounds e =
    take_at-Takes cur units i j w req l (attempt-scan cur units j z inside y)
      (ground (arith, e, z, inside, y))
alloc_loop_round fuel (now ∷ later) cur units i j w req l z inside y later_rounds e =
    elim (Bool-cases (word_eq now cur)) [
      | inl same ↦ inl (
        word_eq-true now cur same,
        take_at-Takes cur units i j w req l (attempt-scan cur units j z inside y)
            (ground (arith, e, z, inside, y, same)),
      )
      | inr differ ↦ elim (Bool-cases (space_est now units)) [
        | inl again ↦ inr (
          differ-SameBits now cur differ,
          later_rounds now later (ground (arith, e, z, inside, y, differ, again)),
        )
        | inr over ↦ absurd (ground (arith, e, z, inside, y, differ, over))
      ]
    ]

-- Whatever other threads do, `bitv_alloc` too takes the first run of the word that it swaps.
pub alloc_loop-Takes :
    (fuel : ℕ) (found : List Word) (cur : Word) (units i : ℕ) (w req : Word)
    → 1 ≤ units
    → alloc_loop fuel cur units found ≡ granted i w req
    → Swapped (Takes units i w req) cur found
unfolding alloc_loop
alloc_loop-Takes zero found cur units i w req l e = absurd (ground (arith, e))
alloc_loop-Takes (suc fuel) found cur units i w req l e = elim (Bool-cases (is_zero cur)) [
  | inl z ↦ absurd (ground (arith, e, z))
  | inr z ↦ elim (dec_lt bits_per_long (clz cur + units)) [
    | yes out ↦ absurd (ground (arith, e, z, out))
    | no inside ↦
        elim (Option-cases
          (scan (places_from (clz cur) units) cur (units_to_mask units) (clz cur))) [
            | inl n ↦
                alloc_loop-Takes fuel found cur units i w req l (ground (arith, e, z, inside, n))
            | inr (j, y) ↦
                alloc_loop_round fuel found cur units i j w req l z (omega (arith, inside)) y
                  (λ now later. alloc_loop-Takes fuel later now units i w req l) e
          ]
  ]
]
