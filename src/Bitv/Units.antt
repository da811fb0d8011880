-- ===== src/Bitv/Units.antt =====
-- The control block, and the sizes and masks of src/bitv_priv.h.
use sphde.Base.{
  ℕ, zero, suc, ◌+◌, ◌-◌, ◌*◌, ◌/◌, ◌%◌, ◌^◌, Bool, not, ◌&&◌, leb, ◌==◌, if◌then◌else◌, add64,
}
use sphde.Bitv.Word.{
  Word, bits_per_long, ◌&w◌, inv, shr, sar, shl, bit_zero, clz, ctz, is_zero, count_ones,
}

-- `bitv_cb_t`
pub record ControlBlock : Type 0 where
  pub alloc_unit : ℕ
  pub alloc_shift : ℕ
  pub alloc_mask : ℕ

-- The number of the lowest 1 of `n`, at most `fuel`.
unfoldable pub trailing_zeros : ℕ → ℕ → ℕ
trailing_zeros zero n = 0
trailing_zeros (suc fuel) n =
    let rest = trailing_zeros fuel (n / 2) in if n % 2 == 0 then rest + 1 else 0

-- The number of the highest 1 of `n`, that is 63 less `__builtin_clzl`.
unfoldable pub top_bit : ℕ → ℕ → ℕ
top_bit zero n = 0
top_bit (suc fuel) n = let rest = top_bit fuel (n / 2) in if n / 2 == 0 then 0 else rest + 1

-- `bitv_popcountl_one`: `vec && (vec == (bit_zero >> __builtin_clzl(vec)))`
unfoldable pub popcountl_one : ℕ → Bool
popcountl_one n = not (n == 0) && n == 2 ^ top_bit 64 n

-- `bitv_init`; a unit that is no power of two leaves the block as it is.
unfoldable pub init : ControlBlock → ℕ → ControlBlock
init cb unit =
    if popcountl_one unit
    then record { alloc_unit = unit; alloc_mask = unit - 1; alloc_shift = trailing_zeros 64 unit }
    else cb

unfoldable pub round_unit : ControlBlock → ℕ → ℕ
round_unit cb size = add64 size cb.alloc_mask / 2 ^ cb.alloc_shift

-- `(long) bit_zero >> (units - 1)`, an arithmetic shift: the first `units` bits.
abbrev pub units_to_mask : ℕ → Word
units_to_mask units = sar bit_zero (units - 1)

unfoldable pub size_to_mask : ControlBlock → ℕ → Word
size_to_mask cb size = units_to_mask (round_unit cb size)

-- `msk & ~(msk << 1)` and `msk & ~(msk >> 1)`: the last and the first 1 of a run.
abbrev pub mask_to_end_mrk : Word → Word
mask_to_end_mrk msk = msk &w inv (shl msk 1)

abbrev pub mask_to_start_mrk : Word → Word
mask_to_start_mrk msk = msk &w inv (shr msk 1)

-- `(at >> cb->alloc_shift) & (bits_per_long - 1)`
unfoldable pub offset_of : ControlBlock → ℕ → ℕ
offset_of cb at = at / 2 ^ cb.alloc_shift % bits_per_long

-- `BITV_SPACE_EST` without a population count: the bits from the first to the last 1.
unfoldable pub space_est : Word → ℕ → Bool
space_est vec units = not (is_zero vec) && leb units (bits_per_long - clz vec - ctz vec)

-- `bitv_free_space`
unfoldable pub free_space : ControlBlock → Word → ℕ
free_space cb bvec = count_ones bits_per_long bvec * 2 ^ cb.alloc_shift % 2 ^ 64

-- `bitv_allocated_size`: from the offset to the next end mark.
unfoldable pub allocated_size : ControlBlock → Word → ℕ → ℕ
allocated_size cb endvec at =
    let endmrk = shl endvec (offset_of cb at) in
    if is_zero endmrk then 0 else (clz endmrk + 1) * 2 ^ cb.alloc_shift % 2 ^ 64

-- `bitv_allocated_size_chk`: the same, if that is the size expected.
unfoldable pub allocated_size_chk : ControlBlock → Word → ℕ → ℕ → ℕ
allocated_size_chk cb endvec at alloc_size =
    let endmrk = shl endvec (offset_of cb at) in
    let units = clz endmrk + 1 in
    if is_zero endmrk
    then 0
    else if round_unit cb alloc_size == units
    then units * 2 ^ cb.alloc_shift % 2 ^ 64
    else 0
