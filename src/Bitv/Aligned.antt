-- ===== src/Bitv/Aligned.antt =====
-- `bitv_aligned_alloc` and `bitv_aligned_alloc_marked` of src/bitv.c.
--
-- The two differ in what ends the outer loop when the inner one has found no place: the mask being
-- shifted out of the word, or the last place being tried. Where that does not come about, the outer
-- loop goes round again with the word as it was.
use sphde.Base.{
  ℕ, zero, suc, ◌+◌, ◌-◌, ◌*◌, ◌/◌, ◌^◌, Bool, not, ltb, leb, ◌==◌, if◌then◌else◌, List, [], ◌∷◌,
  Option, none, some,
}
use sphde.Bitv.Word.{Word, bits_per_long, ◌|w◌, shr, clz, is_zero, word_eq}
use sphde.Bitv.Units.{
  ControlBlock, round_unit, units_to_mask, mask_to_end_mrk, space_est, trailing_zeros,
}
use sphde.Bitv.Alloc.{Outcome, granted, refused, stuck, fits_at, take_at, int_offset}

-- `__builtin_ffsl (align >> cb->alloc_shift)`: the number of the lowest 1, from 1 on, or 0.
unfoldable pub align_shift : ControlBlock → ℕ → ℕ
align_shift cb align =
    let n = align / 2 ^ cb.alloc_shift in if n == 0 then 0 else trailing_zeros 64 n + 1

-- The test on `align`, for alignments that the `int` 1 can be shifted to.
unfoldable pub align_ok : ControlBlock → ℕ → Bool
align_ok cb align = align == 2 ^ (align_shift cb align + cb.alloc_shift - 1)

-- What an inner loop leaves: the place where the request fits; or no place, with `cur_msk` cleared, or
-- with `cur_msk` as it was.
pub data Scan : Type 0 where
  found_at : ℕ → Scan
  cleared : Scan
  open_end : Scan

-- What a round without a fit at bit `i` clears `cur_msk` on, given the mask of that round.
abbrev pub ClearTest : Type 0
ClearTest = Word → ℕ → Bool

-- `bitv_aligned_alloc`: `req_msk >>= align_units; if (req_msk == 0UL)`
unfoldable pub clear_shifted : ℕ → ClearTest
clear_shifted align_units req i = is_zero (shr req align_units)

-- `bitv_aligned_alloc_marked`: `if (i < (bits_per_long - alloc_units)) ... else`
unfoldable pub clear_last : ℕ → ClearTest
clear_last units req i = not (ltb (i + units) bits_per_long)

-- The inner loop from bit `i` on in steps of `align_units`. Once `cur_msk` is cleared there is no
-- place left: the next one would lie past the last.
unfoldable pub aligned_scan : ℕ → ClearTest → Word → ℕ → ℕ → ℕ → Scan
aligned_scan zero clear cur units align_units i = open_end
aligned_scan (suc rounds) clear cur units align_units i =
    let rest = aligned_scan rounds clear cur units align_units (i + align_units) in
    if leb (i + units) bits_per_long
    then if fits_at cur (units_to_mask units) i
      then found_at i
      else if clear (shr (units_to_mask units) i) i
      then cleared
      else rest
    else open_end

-- `(start + align_units - 1) & (~(align_units - 1))`, for a power of 2.
abbrev pub round_start : ℕ → ℕ → ℕ
round_start start align_units = (start + align_units - 1) / align_units * align_units

-- The outer loop.
unfoldable pub aligned_loop : ℕ → ClearTest → Word → ℕ → ℕ → List Word → Outcome
aligned_loop zero clear cur units align_units found = stuck cur
aligned_loop (suc fuel) clear cur units align_units found =
    let start = round_start (clz cur) align_units in
    let again = aligned_loop fuel clear cur units align_units found in
    let retry : Word → List Word → Outcome =
      λ now later. aligned_loop fuel clear now units align_units later in
    if is_zero cur
    then refused cur
    else if ltb bits_per_long (start + units)
    then refused cur
    else elim (aligned_scan bits_per_long clear cur units align_units start) [
      | cleared ↦ refused cur
      | open_end ↦ again
      | found_at i ↦ elim found [
        | [] ↦ take_at cur (units_to_mask units) i
        | now ∷ later ↦
            if word_eq now cur
            then take_at cur (units_to_mask units) i
            else if space_est now units
            then retry now later
            else refused now
      ]
    ]

-- `bitv_aligned_alloc`
unfoldable pub aligned_alloc : ℕ → ControlBlock → Word → ℕ → ℕ → List Word → Option ℕ × Word
unfolding aligned_loop int_offset
aligned_alloc fuel cb bvec size align found =
    let align_units = round_unit cb align in
    let units = round_unit cb size in
    if align_ok cb align
    then elim (aligned_loop fuel (clear_shifted align_units) bvec units align_units found) [
      | granted i bvec' req ↦ (some (int_offset cb i), bvec')
      | refused last ↦ (none, last)
      | stuck last ↦ (none, last)
    ]
    else (none, bvec)

-- `bitv_aligned_alloc_marked`
unfoldable pub aligned_alloc_marked :
    ℕ → ControlBlock → Word → Word → ℕ → ℕ → List Word → Option ℕ × Word × Word
unfolding aligned_loop int_offset
aligned_alloc_marked fuel cb bvec endvec size align found =
    let align_units = round_unit cb align in
    let units = round_unit cb size in
    if align_ok cb align
    then elim (aligned_loop fuel (clear_last units) bvec units align_units found) [
      | granted i bvec' req ↦ (some (int_offset cb i), bvec', endvec |w mask_to_end_mrk req)
      | refused last ↦ (none, last, endvec)
      | stuck last ↦ (none, last, endvec)
    ]
    else (none, bvec, endvec)
