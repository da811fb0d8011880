-- ===== src/Bitv/Free.antt =====
-- `bitv_dealloc` and `bitv_free_marked` of src/bitv.c. The return codes are 0 for success, 1 where a
-- unit was free already, and `none` for -1.
use sphde.Base.{ℕ, ◌+◌, not, ◌&&◌, ltb, if◌then◌else◌, Option, none, some}
use sphde.Bitv.Word.{Word, bits_per_long, ◌&w◌, ◌|w◌, inv, shr, shl, bit_zero, clz, is_zero}
use sphde.Bitv.Units.{ControlBlock, round_unit, units_to_mask, offset_of}

-- `bitv_dealloc_internal`
unfoldable pub dealloc_internal : Word → ℕ → ℕ → Option ℕ × Word
dealloc_internal bvec offset units =
    let req = shr (units_to_mask units) offset in
    if ltb bits_per_long (units + offset)
    then (none, bvec)
    else (some (if is_zero (bvec &w req) then 0 else 1), bvec |w req)

unfoldable pub dealloc : ControlBlock → Word → ℕ → ℕ → Option ℕ × Word
unfolding dealloc_internal
dealloc cb bvec at size = dealloc_internal bvec (offset_of cb at) (round_unit cb size)

-- `bitv_free_marked` from the offset in units.
unfoldable pub free_marked_at : Word → Word → ℕ → Option ℕ × Word × Word
unfolding dealloc_internal
free_marked_at bvec endvec offset =
    let endmrk = shl endvec offset in
    let bgnmrk = shl bvec offset in
    let units = clz endmrk in
    let (rc, bvec') = dealloc_internal bvec offset (units + 1) in
    if not (is_zero endmrk) && is_zero (bgnmrk &w bit_zero)
    then (rc, bvec', endvec &w inv (shr bit_zero (offset + units)))
    else (none, bvec, endvec)

unfoldable pub free_marked : ControlBlock → Word → Word → ℕ → Option ℕ × Word × Word
unfolding free_marked_at
free_marked cb bvec endvec at = free_marked_at bvec endvec (offset_of cb at)
