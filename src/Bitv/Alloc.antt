-- ===== src/Bitv/Alloc.antt =====
-- `bitv_alloc` and `bitv_alloc_marked` of src/bitv.c.
--
-- Other threads change the word between the read of `cur_msk` and the compare-and-swap. What they do
-- is a list: the word that each attempt to swap finds; at its end nobody interferes. A loop that could
-- run for ever takes fuel, and `stuck` says that the fuel ran out.
use sphde.Base.{
  ℕ, zero, suc, ◌+◌, ◌-◌, ◌*◌, ◌%◌, ◌^◌, Bool, not, ◌&&◌, ltb, if◌then◌else◌, List, [], ◌∷◌, Option,
  none, some,
}
use sphde.Bitv.Word.{Word, bits_per_long, ◌&w◌, ◌|w◌, inv, shr, clz, is_zero, word_eq}
use sphde.Bitv.Units.{ControlBlock, round_unit, units_to_mask, mask_to_end_mrk, space_est}

-- What the loops leave: the place and the word after the swap, with the mask of the units taken; or
-- -1, nothing being swapped, with the word last read. Sizes are of 1 to 64 units; the shifts of other
-- sizes are undefined in C.
pub data Outcome : Type 0 where
  granted : ℕ → Word → Word → Outcome
  refused : Word → Outcome
  stuck : Word → Outcome

-- `(cur_msk & req_msk) == req_msk` with the request moved to bit `i`.
unfoldable pub fits_at : Word → Word → ℕ → Bool
fits_at cur req i = word_eq (cur &w shr req i) (shr req i)

-- The `for` loop: the first place from `i` on, of `rounds` places, where the request fits.
unfoldable pub scan : ℕ → Word → Word → ℕ → Option ℕ
scan zero cur req i = none
scan (suc rounds) cur req i =
    let rest = scan rounds cur req (i + 1) in if fits_at cur req i then some i else rest

-- How many places leave room for `units` from bit `start` on.
abbrev pub places_from : ℕ → ℕ → ℕ
places_from start units = bits_per_long + 1 - (start + units)

-- The word and the mask that a successful swap at place `i` leaves.
abbrev pub take_at : Word → Word → ℕ → Outcome
take_at cur req i = granted i (cur &w inv (shr req i)) (shr req i)

-- The loop of `bitv_alloc`. A scan that finds no place leaves
-- `cur_msk` as it is, and the `while` goes round again.
unfoldable pub alloc_loop : ℕ → Word → ℕ → List Word → Outcome
alloc_loop zero cur units found = stuck cur
alloc_loop (suc fuel) cur units found =
    let req = units_to_mask units in
    let start = clz cur in
    let again = alloc_loop fuel cur units found in
    let retry : Word → List Word → Outcome = λ now later. alloc_loop fuel now units later in
    if is_zero cur
    then refused cur
    else if ltb bits_per_long (start + units)
    then refused cur
    else elim (scan (places_from start units) cur req start) [
      | none ↦ again
      | some i ↦ elim found [
        | [] ↦ take_at cur req i
        | now ∷ later ↦
            if word_eq now cur
            then take_at cur req i
            else if space_est now units
            then retry now later
            else refused now
      ]
    ]

-- The place where `bitv_alloc_marked` tries to swap: its scan ends the loop when it finds none.
unfoldable pub attempt : Word → ℕ → Option ℕ
unfolding scan
attempt cur units =
    let start = clz cur in
    if is_zero cur
    then none
    else if ltb bits_per_long (start + units)
    then none
    else scan (places_from start units) cur (units_to_mask units) start

-- The loop of `bitv_alloc_marked`: the second swap that fails gives up.
unfoldable pub marked_loop : Word → ℕ → ℕ → List Word → Outcome
unfolding attempt
marked_loop cur units retry_cnt [] = elim (attempt cur units) [
  | none ↦ refused cur
  | some i ↦ take_at cur (units_to_mask units) i
]
marked_loop cur units retry_cnt (now ∷ later) =
    let retry = marked_loop now units (retry_cnt + 1) later in
    elim (attempt cur units) [
      | none ↦ refused cur
      | some i ↦
          if word_eq now cur
          then take_at cur (units_to_mask units) i
          else if space_est now units && not (ltb 0 retry_cnt)
          then retry
          else refused now
    ]

-- `i << cb->alloc_shift` at an `int`, as the `ssize_t` that it becomes: 32 bits, of which the first is the
-- sign. The compiler is taken to let a shift wrap.
unfoldable pub int_offset : ControlBlock → ℕ → ℕ
int_offset cb i =
    let n = i * 2 ^ cb.alloc_shift % 2 ^ 32 in if ltb n (2 ^ 31) then n else n + (2 ^ 64 - 2 ^ 32)

-- `bitv_alloc`: the offset of the space in the storage, and the word.
unfoldable pub alloc : ℕ → ControlBlock → Word → ℕ → List Word → Option ℕ × Word
unfolding alloc_loop int_offset
alloc fuel cb bvec size found = elim (alloc_loop fuel bvec (round_unit cb size) found) [
  | granted i bvec' req ↦ (some (int_offset cb i), bvec')
  | refused last ↦ (none, last)
  | stuck last ↦ (none, last)
]

-- `bitv_alloc_marked`, whose `i` is a `long`: the offset, the word of units and the word of end marks.
unfoldable pub alloc_marked : ControlBlock → Word → Word → ℕ → List Word → Option ℕ × Word × Word
unfolding marked_loop
alloc_marked cb bvec endvec size found = elim (marked_loop bvec (round_unit cb size) 0 found) [
  | granted i bvec' req ↦ (some (i * 2 ^ cb.alloc_shift), bvec', endvec |w mask_to_end_mrk req)
  | refused last ↦ (none, last, endvec)
  | stuck last ↦ (none, last, endvec)
]
