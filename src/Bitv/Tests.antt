-- ===== src/Bitv/Tests.antt =====
-- Runs of src/bitv.c at concrete words.
use sphde.Base.{
  ℕ, ◌+◌, ◌*◌, ◌%◌, ◌≤◌, ◌≡◌, refl, ◌&&◌, leb, ltb, ◌==◌, arith, [], ◌∷◌, some, none, Option,
}
use sphde.Bitv.Word.{Word, shr, inv, ◌&w◌, all_below, first_one, clz, zeros_behind, ctz}
use sphde.Bitv.Units.{trailing_zeros, units_to_mask, ControlBlock, round_unit, space_est}
use sphde.Bitv.Alloc.{
  int_offset, alloc, alloc_marked, alloc_loop, marked_loop, attempt, scan, fits_at, granted, stuck,
}
use sphde.Bitv.Aligned.{
  aligned_loop, aligned_scan, clear_last, aligned_alloc, aligned_alloc_marked, align_ok,
  align_shift,
}
use sphde.Bitv.AlignedLaws.{aligned_loop-TakesAligned, TakesAligned}
use sphde.Bitv.Free.{dealloc_internal, dealloc, free_marked}
use sphde.Bitv.Runs.{IsRun}
use sphde.Bitv.Found.{Takes, Swapped, marked_loop-Takes, alloc_loop-stuck}
use sphde.Bitv.Marked.{Marks}
use sphde.Bitv.Calls.{free_marked-alloc_marked}

-- Units of 16 bytes; the units 3 to 9 are free, and the allocation before them ends at unit 2.
abbrev unit16 : ControlBlock
unit16 = record { alloc_unit = 16; alloc_shift = 4; alloc_mask = 15 }

abbrev bits : Word
bits k = leb 3 k && ltb k 10

abbrev marks : Word
marks k = k == 2

bits-Marks : Marks bits marks
bits-Marks k e = ground (arith, e)

abbrev given : Option ℕ × Word × Word
given = alloc_marked unit16 bits marks 40 []

alloc_marked_run : alloc_marked unit16 bits marks 40 [] ≡ (some 48, given.1, given.2)
unfolding alloc_marked marked_loop attempt scan fits_at clz first_one all_below round_unit
alloc_marked_run = refl

round_unit_run : 1 ≤ round_unit unit16 40
unfolding round_unit
round_unit_run = omega arith

abbrev freed : Option ℕ × Word × Word
freed = free_marked unit16 given.1 given.2 4144

free_marked-alloc_marked_example :
    (freed.0 ≡ some 0) × ((k : ℕ) → freed.1 k ≡ bits k) × ((k : ℕ) → freed.2 k ≡ marks k)
free_marked-alloc_marked_example =
    free_marked-alloc_marked unit16 bits marks given.1 given.2 freed.1 freed.2 40 48 4144 4 freed.0
      round_unit_run bits-Marks alloc_marked_run refl refl

abbrev freed_units : Option ℕ × Word
freed_units = dealloc_internal bits 12 3

-- Before the first swap another thread takes the units 3 and 4.
abbrev later_bits : Word
later_bits k = leb 5 k && ltb k 10

abbrev mask_at : ℕ → Word
mask_at i = shr (units_to_mask 3) i

abbrev word_at : ℕ → Word
word_at i = later_bits &w inv (mask_at i)

marked_run : marked_loop bits 3 0 (later_bits ∷ []) ≡ granted 5 (word_at 5) (mask_at 5)
unfolding marked_loop attempt scan fits_at clz ctz zeros_behind space_est first_one all_below
marked_run = refl

marked_loop-Takes_example : Swapped (Takes 3 5 (word_at 5) (mask_at 5)) bits (later_bits ∷ [])
marked_loop-Takes_example =
    marked_loop-Takes (later_bits ∷ []) bits 3 0 5 (word_at 5) (mask_at 5) (omega arith) marked_run

alloc_run : alloc_loop 2 bits 3 (later_bits ∷ []) ≡ granted 5 (word_at 5) (mask_at 5)
unfolding alloc_loop scan fits_at clz ctz zeros_behind space_est first_one all_below
alloc_run = refl

bits-IsRun : IsRun bits 4 3
bits-IsRun = (omega arith, λ k lo hi. ground (arith, lo, hi))

later_bits-IsRun : IsRun later_bits 6 3
later_bits-IsRun = (omega arith, λ k lo hi. ground (arith, lo, hi))

-- Every other unit is free.
abbrev alternate : Word
alternate k = k % 2 == 0

alternate-IsRun : (i : ℕ) → ¬ (IsRun alternate i 2)
alternate-IsRun i r =
    ground (arith, r.1 i (omega arith) (omega arith), r.1 (i + 1) (omega arith) (omega arith))

alloc_loop-stuck_example : alloc_loop 1000000 alternate 2 [] ≡ stuck alternate
alloc_loop-stuck_example =
    alloc_loop-stuck 1000000 alternate 2 4 [] (omega arith) refl (omega arith) alternate-IsRun

abbrev taken : Option ℕ × Word
taken = alloc 1 unit16 bits 40 []

taken_run : alloc 1 unit16 bits 40 [] ≡ (some 48, taken.1)
unfolding alloc int_offset alloc_loop scan fits_at clz first_one all_below round_unit
taken_run = refl

abbrev returned : Option ℕ × Word
returned = dealloc unit16 taken.1 4144 40

alternate-IsRun_aligned : (m : ℕ) → ¬ (IsRun alternate (m * 4) 3)
alternate-IsRun_aligned m r = ground (arith, r.1 (m * 4 + 1) (omega arith) (omega arith))

-- Before the first swap another thread takes the units 3 and 4, after which only the places from 6 on
-- are aligned to 2 units.
aligned_run :
    aligned_loop 2 (clear_last 3) bits 3 2 (later_bits ∷ []) ≡ granted 6 (word_at 6) (mask_at 6)
unfolding aligned_loop aligned_scan clear_last fits_at clz ctz zeros_behind space_est first_one
    all_below
aligned_run = refl

aligned_loop-TakesAligned_example :
    Swapped (TakesAligned 3 2 6 (word_at 6) (mask_at 6)) bits (later_bits ∷ [])
aligned_loop-TakesAligned_example =
    aligned_loop-TakesAligned 2 (clear_last 3) (later_bits ∷ []) bits 3 2 6 (word_at 6) (mask_at 6)
      (omega arith) aligned_run

aligned_alloc_run : (aligned_alloc_marked 1 unit16 bits marks 40 64 []).0 ≡ some 64
unfolding aligned_alloc_marked int_offset align_ok align_shift trailing_zeros aligned_loop
    aligned_scan clear_last fits_at clz first_one all_below round_unit
aligned_alloc_run = refl

aligned_alloc_bad_align : (aligned_alloc 1 unit16 bits 40 48 []).0 ≡ none
unfolding aligned_alloc align_ok align_shift trailing_zeros
aligned_alloc_bad_align = refl
