-- ===== src/Bitv/AlignedLaws.antt =====
-- What the loops of the aligned allocations in src/bitv.c take, and when they end.
use sphde.Base.{
  ℕ, zero, suc, ◌+◌, ◌-◌, ◌*◌, ◌/◌, ◌≤◌, ◌<◌, ◌≡◌, ◌≢◌, ◌⊎◌, inl, inr, refl, ap, sym, ◌∙◌, true,
  false, not, ◌&&◌, Bool-cases, List, [], ◌∷◌, arith, dec_lt,
}
use mathlib.Core.Path.{subst}
use native.Mathlib.Nat.{add-mul}
use sphde.Bitv.Word.{Word, bits_per_long, shr, clz, is_zero, word_eq}
use sphde.Bitv.Units.{units_to_mask, space_est}
use sphde.Bitv.Alloc.{Outcome, granted, stuck, fits_at, take_at}
use sphde.Bitv.Aligned.{
  Scan, found_at, cleared, open_end, ClearTest, clear_last, aligned_scan, round_start, aligned_loop,
}
use sphde.Bitv.WordLaws.{is_zero-false, word_eq-true}
use sphde.Bitv.Runs.{in_run, IsRun, shr-units_to_mask, fits_at-true}
use sphde.Bitv.Found.{Swapped, differ-SameBits, place, word, mask}

-- A run of `units` free units of `v` begins at `i`, a multiple of `align_units`; `w` is `v` less that
-- run, and `req` is the run.
abbrev pub TakesAligned : ℕ → ℕ → ℕ → Word → Word → Word → Type 0
TakesAligned units align_units i w req v =
    IsRun v i units
    × ((n : ℕ) × (i ≡ n * align_units))
    × ((k : ℕ) → w k ≡ (v k && not (in_run i units k)))
    × ((k : ℕ) → req k ≡ in_run i units k)

-- The next step of the loop is at a multiple too.
next_step : (i n au : ℕ) → i ≡ n * au → i + au ≡ (n + 1) * au
next_step i n au e = ap (λ (x : ℕ). x + au) e ∙ omega (arith, add-mul n 1 au)

Scan-cases : (s : Scan) → ((i : ℕ) × (s ≡ found_at i)) ⊎ (s ≡ cleared) ⊎ (s ≡ open_end)
Scan-cases (found_at i) = inl (i, refl)
Scan-cases cleared = inr (inl refl)
Scan-cases open_end = inr (inr refl)

aligned_scan-found :
    (rounds : ℕ) (clear : ClearTest) (cur : Word) (units au i n j : ℕ)
    → 1 ≤ units
    → i ≡ n * au
    → aligned_scan rounds clear cur units au i ≡ found_at j
    → IsRun cur j units × ((m : ℕ) × (j ≡ m * au))
unfolding aligned_scan
aligned_scan-found zero clear cur units au i n j l e h = absurd (ground (arith, h))
aligned_scan-found (suc rounds) clear cur units au i n j l e h =
    elim (dec_lt bits_per_long (i + units)) [
      | yes out ↦ absurd (ground (arith, h, out))
      | no inside ↦ elim (Bool-cases (fits_at cur (units_to_mask units) i)) [
        | inl y ↦
            let same : i ≡ j = ground (arith, h, inside, y) in
            subst (λ (x : ℕ). IsRun cur x units × ((m : ℕ) × (x ≡ m * au))) same
              (fits_at-true cur units i l (omega (arith, inside)) y, (n, e))
        | inr y ↦ elim (Bool-cases (clear (shr (units_to_mask units) i) i)) [
          | inl c ↦ absurd (ground (arith, h, inside, y, c))
          | inr c ↦
              aligned_scan-found rounds clear cur units au (i + au) (n + 1) j l (next_step i n au e)
                (ground (arith, h, inside, y, c))
        ]
      ]
    ]

-- Where no aligned run is free and no multiple of the alignment lies one request before the end of the
-- word, the marked scan ends without clearing the mask.
aligned_scan-open :
    (rounds : ℕ) (cur : Word) (units au i n : ℕ)
    → 1 ≤ units
    → i ≡ n * au
    → ((m : ℕ) → ¬ (IsRun cur (m * au) units))
    → ((m : ℕ) → m * au + units ≢ bits_per_long)
    → aligned_scan rounds (clear_last units) cur units au i ≡ open_end
unfolding aligned_scan clear_last
aligned_scan-open zero cur units au i n l e none_free off = refl
aligned_scan-open (suc rounds) cur units au i n l e none_free off =
    elim (dec_lt bits_per_long (i + units)) [
      | yes out ↦ ground (arith, out)
      | no inside ↦ elim (Bool-cases (fits_at cur (units_to_mask units) i)) [
        | inl y ↦ absurd (
            none_free n (
              subst (λ (x : ℕ). IsRun cur x units) e
                (fits_at-true cur units i l (omega (arith, inside)) y)))
        | inr y ↦
            let last =
              λ (z : i + units ≡ bits_per_long). off n (ap (λ (x : ℕ). x + units) (sym e) ∙ z) in
            ground (
              arith,
              inside,
              y,
              last,
              aligned_scan-open rounds cur units au (i + au) (n + 1) l (next_step i n au e)
                  none_free off,
            )
      ]
    ]

-- Where the place that the search starts at has room, no aligned run is free, and no multiple of the
-- alignment lies one request before the end of the word, the marked loop never ends.
pub aligned_loop-stuck :
    (fuel : ℕ) (cur : Word) (units align_units k : ℕ) (found : List Word)
    → 1 ≤ units
    → k < bits_per_long
    → cur k ≡ true
    → round_start (clz cur) align_units + units ≤ bits_per_long
    → ((m : ℕ) → ¬ (IsRun cur (m * align_units) units))
    → ((m : ℕ) → m * align_units + units ≢ bits_per_long)
    → aligned_loop fuel (clear_last units) cur units align_units found ≡ stuck cur
unfolding aligned_loop
aligned_loop-stuck zero cur units align_units k found l lt one room none_free off = refl
aligned_loop-stuck (suc fuel) cur units align_units k found l lt one room none_free off =
    let nonzero = is_zero-false cur k lt one in
    let start = (clz cur + align_units - 1) / align_units in
    ground (
      arith,
      nonzero,
      room,
      aligned_scan-open bits_per_long cur units align_units (start * align_units) start l refl
          none_free off,
      aligned_loop-stuck fuel cur units align_units k found l lt one room none_free off,
    )

take_at-TakesAligned :
    (cur : Word) (units au i j : ℕ) (w req : Word)
    → 1 ≤ units
    → IsRun cur j units × ((n : ℕ) × (j ≡ n * au))
    → take_at cur (units_to_mask units) j ≡ granted i w req
    → TakesAligned units au i w req cur
take_at-TakesAligned cur units au i j w req l (run, multiple) e =
    let same : j ≡ i = ap place e in
    let moved = λ (k : ℕ). shr-units_to_mask units j k l in
    subst (λ (n : ℕ). TakesAligned units au n w req cur) same
      (
        run,
        multiple,
        λ k. ap (λ (o : Outcome). word o k) (sym e) ∙ ap (λ b. cur k && not b) (moved k),
        λ k. ap (λ (o : Outcome). mask o k) (sym e) ∙ moved k,
      )

aligned_loop_round :
    (fuel : ℕ) (clear : ClearTest) (found : List Word) (cur : Word) (units au i j : ℕ)
    (w req : Word)
    → 1 ≤ units
    → is_zero cur ≡ false
    → round_start (clz cur) au + units ≤ bits_per_long
    → aligned_scan bits_per_long clear cur units au (round_start (clz cur) au) ≡ found_at j
    → ((now : Word) (later : List Word)
        → aligned_loop fuel clear now units au later ≡ granted i w req
        → Swapped (TakesAligned units au i w req) now later)
    → aligned_loop (suc fuel) clear cur units au found ≡ granted i w req
    → Swapped (TakesAligned units au i w req) cur found
unfolding aligned_loop Swapped
aligned_loop_round fuel clear [] cur units au i j w req l z inside y later_rounds e =
    let start = (clz cur + au - 1) / au in
    let at = aligned_scan-found bits_per_long clear cur units au (start * au) start j l refl y in
    take_at-TakesAligned cur units au i j w req l at (ground (arith, e, z, inside, y))
aligned_loop_round fuel clear (now ∷ later) cur units au i j w req l z inside y later_rounds e =
    let start = (clz cur + au - 1) / au in
    let at = aligned_scan-found bits_per_long clear cur units au (start * au) start j l refl y in
    elim (Bool-cases (word_eq now cur)) [
      | inl same ↦ inl (
        word_eq-true now cur same,
        take_at-TakesAligned cur units au i j w req l at (ground (arith, e, z, inside, y, same)),
      )
      | inr differ ↦ elim (Bool-cases (space_est now units)) [
        | inl again ↦ inr (
          differ-SameBits now cur differ,
          later_rounds now later (ground (arith, e, z, inside, y, differ, again)),
        )
        | inr over ↦ absurd (ground (arith, e, z, inside, y, differ, over))
      ]
    ]

-- For a request of some units, and whatever other threads make of the word between the tries: the word
-- that a granted aligned allocation swaps is the one read before the first try that finds it as it was
-- read, or, past the words listed, the last one found; it takes a run of free units of that word at a
-- multiple of the alignment, leaves the other bits, and its mask is the run.
pub aligned_loop-TakesAligned :
    (fuel : ℕ) (clear : ClearTest) (found : List Word) (cur : Word) (units align_units i : ℕ)
    (w req : Word)
    → 1 ≤ units
    → aligned_loop fuel clear cur units align_units found ≡ granted i w req
    → Swapped (TakesAligned units align_units i w req) cur found
unfolding aligned_loop
aligned_loop-TakesAligned zero clear found cur units align_units i w req l e =
    absurd (ground (arith, e))
aligned_loop-TakesAligned (suc fuel) clear found cur units align_units i w req l e =
    elim (Bool-cases (is_zero cur)) [
      | inl z ↦ absurd (ground (arith, e, z))
      | inr z ↦ elim (dec_lt bits_per_long (round_start (clz cur) align_units + units)) [
        | yes out ↦ absurd (ground (arith, e, z, out))
        | no inside ↦
            elim (Scan-cases (
              aligned_scan bits_per_long clear cur units align_units
                (round_start (clz cur) align_units))) [
                  | inl (j, y) ↦
                      aligned_loop_round fuel clear found cur units align_units i j w req l z
                        (omega (arith, inside)) y
                        (λ now later.
                          aligned_loop-TakesAligned fuel clear later now units align_units i w req
                            l)
                        e
                  | inr (inl y) ↦ absurd (ground (arith, e, z, inside, y))
                  | inr (inr y) ↦
                      aligned_loop-TakesAligned fuel clear found cur units align_units i w req l
                        (ground (arith, e, z, inside, y))
                ]
      ]
    ]
