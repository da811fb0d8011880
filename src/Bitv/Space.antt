-- ===== src/Bitv/Space.antt =====
-- Errors and free space of the calls of src/bitv.c, and `bitv_alloc` with `bitv_dealloc`.
use sphde.Base.{
  ℕ, zero, suc, ◌+◌, ◌-◌, ◌*◌, ◌%◌, ◌^◌, ◌≤◌, ◌<◌, ◌≡◌, ◌↔◌, inl, inr, ap, sym, ◌∙◌, true, not,
  ◌&&◌, if◌then◌else◌, leb, Bool-cases, List, [], Option, none, some, arith, Option-cases,
}
use native.Mathlib.Nat.{mul-le-mul_right}
use sphde.Bitv.Word.{Word, bits_per_long, count_ones}
use sphde.Bitv.Units.{ControlBlock, allocated_size, round_unit}
use sphde.Bitv.Alloc.{granted, attempt, marked_loop, alloc_loop, int_offset, alloc, alloc_marked}
use sphde.Bitv.Free.{dealloc_internal, dealloc}
use sphde.Bitv.Runs.{in_run, IsRun, attempt-none, attempt-some}
use sphde.Bitv.Found.{Swapped, marked_loop-Takes, alloc_loop-Takes}
use sphde.Bitv.Marked.{Marks, dealloc_internal_lem}
use sphde.Bitv.Calls.{
  allocated_size-alloc_marked, Outcome-cases, alloc_marked-granted, offset_of_lem,
}

-- How many bits of a run are below `n`.
abbrev run_below : ℕ → ℕ → ℕ → ℕ
run_below i units n = if leb n i then 0 else if leb n (i + units) then n - i else units

count_ones-run :
    (n i units : ℕ) (v w : Word)
    → ((k : ℕ) → w k ≡ (v k && not (in_run i units k)))
    → ((k : ℕ) → i ≤ k → k < i + units → v k ≡ true)
    → count_ones n v ≡ count_ones n w + run_below i units n
unfolding count_ones
count_ones-run zero i units v w less ones = ground arith
count_ones-run (suc n) i units v w less ones = elim (Bool-cases (in_run i units n)) [
  | inl y ↦ ground (
    arith,
    count_ones-run n i units v w less ones,
    less n,
    ones n (ground (arith, y)) (ground (arith, y)),
    y,
  )
  | inr y ↦ ground (arith, count_ones-run n i units v w less ones, less n, y)
]

free_units-alloc_marked :
    (cb : ControlBlock) (bvec endvec b e : Word) (size off : ℕ)
    → 1 ≤ round_unit cb size
    → alloc_marked cb bvec endvec size [] ≡ (some off, b, e)
    → count_ones bits_per_long bvec ≡ count_ones bits_per_long b + round_unit cb size
unfolding Swapped
free_units-alloc_marked cb bvec endvec b e size off l h =
    let (i, req, loop, offset, marks) = alloc_marked-granted cb bvec endvec b e size off [] h in
    let t = marked_loop-Takes [] bvec (round_unit cb size) 0 i b req l loop in
    ground (arith, count_ones-run bits_per_long i (round_unit cb size) bvec b t.2 t.0.1, t.0.0)

-- On words where no free unit is marked, a marked allocation at `off` takes as many free units as its
-- size takes, and is reported at an address of that offset in its storage as so many whole units.
pub space-alloc_marked :
    (cb : ControlBlock) (bvec endvec b e : Word) (size off at q : ℕ)
    → 1 ≤ round_unit cb size
    → Marks bvec endvec
    → alloc_marked cb bvec endvec size [] ≡ (some off, b, e)
    → at ≡ off + q * bits_per_long * 2 ^ cb.alloc_shift
    → (count_ones bits_per_long bvec ≡ count_ones bits_per_long b + round_unit cb size)
      × (allocated_size cb e at ≡ round_unit cb size * 2 ^ cb.alloc_shift % 2 ^ 64)
space-alloc_marked cb bvec endvec b e size off at q l m h a = (
  free_units-alloc_marked cb bvec endvec b e size off l h,
  allocated_size-alloc_marked cb bvec endvec b e size off at q l m h a,
)

-- With nobody interfering a marked allocation returns -1 exactly where no run of units is long enough.
pub alloc_marked-none :
    (cb : ControlBlock) (bvec endvec : Word) (size : ℕ)
    → 1 ≤ round_unit cb size
    → ((alloc_marked cb bvec endvec size []).0 ≡ none)
      ↔ ((j : ℕ) → ¬ (IsRun bvec j (round_unit cb size)))
unfolding alloc_marked marked_loop
alloc_marked-none cb bvec endvec size l = elim (Option-cases (attempt bvec (round_unit cb size))) [
  | inl n ↦ (λ h j. attempt-none bvec (round_unit cb size) l n j, λ none_free. ground (arith, n))
  | inr (i, y) ↦ (
    λ h. absurd (ground (arith, h, y)),
    λ none_free. absurd (none_free i (attempt-some bvec (round_unit cb size) i l y).0),
  )
]

-- The storage of a word is below 2 ^ 31 bytes where an `int` has its offsets.
int_offset_lem :
    (cb : ControlBlock) (i : ℕ)
    → i < bits_per_long
    → bits_per_long * 2 ^ cb.alloc_shift ≤ 2 ^ 31
    → int_offset cb i ≡ i * 2 ^ cb.alloc_shift
unfolding int_offset
int_offset_lem cb i lt small = ground (
  arith,
  mul-le-mul_right {m = i + 1} {n = bits_per_long} (2 ^ cb.alloc_shift) (omega (arith, lt)),
  small,
)

alloc-granted :
    (fuel : ℕ) (cb : ControlBlock) (bvec b : Word) (size off : ℕ) (found : List Word)
    → alloc fuel cb bvec size found ≡ (some off, b)
    → (i : ℕ) × (req : Word) × (alloc_loop fuel bvec (round_unit cb size) found ≡ granted i b req)
      × (off ≡ int_offset cb i)
unfolding alloc
alloc-granted fuel cb bvec b size off found h =
    elim (Outcome-cases (alloc_loop fuel bvec (round_unit cb size) found)) [
      | inl (i, w, req, o) ↦
          let eq : alloc fuel cb bvec size found ≡ (some (int_offset cb i), w) =
            ground (arith, o) in
          let same = sym eq ∙ h in
          let offset = ap (λ (p : Option ℕ × Word). p.0) same in
          let word : w ≡ b = ap (λ (p : Option ℕ × Word). p.1) same in
          (i, req, o ∙ ap (λ (x : Word). granted i x req) word, ground (arith, offset))
      | inr (inl (w, o)) ↦ absurd (ground (arith, ap (λ (p : Option ℕ × Word). p.0) h, o))
      | inr (inr (w, o)) ↦ absurd (ground (arith, ap (λ (p : Option ℕ × Word). p.0) h, o))
    ]

-- Where the storage of a word is at most 2 ^ 31 bytes: what `bitv_alloc` gave at `off`, with nobody interfering, `bitv_dealloc` takes back at an address
-- `at` of that offset in its storage: the call returns 0 and restores the bits.
pub dealloc-alloc :
    (fuel : ℕ) (cb : ControlBlock) (bvec b b' : Word) (size off at q : ℕ) (rc : Option ℕ)
    → 1 ≤ round_unit cb size
    → bits_per_long * 2 ^ cb.alloc_shift ≤ 2 ^ 31
    → alloc fuel cb bvec size [] ≡ (some off, b)
    → at ≡ off + q * bits_per_long * 2 ^ cb.alloc_shift
    → dealloc cb b at size ≡ (rc, b')
    → (rc ≡ some 0) × ((k : ℕ) → b' k ≡ bvec k)
unfolding Swapped dealloc
dealloc-alloc fuel cb bvec b b' size off at q rc l small h a d =
    let (i, req, loop, at_int) = alloc-granted fuel cb bvec b size off [] h in
    let t = alloc_loop-Takes fuel [] bvec (round_unit cb size) i b req l loop in
    let offset = at_int ∙ int_offset_lem cb i (omega (arith, l, t.0.0)) small in
    let place = offset_of_lem cb at off i q (omega (arith, l, t.0.0)) offset a in
    let freed = ap (λ (n : ℕ). dealloc_internal b n (round_unit cb size)) (sym place) ∙ d in
    elim (dealloc_internal_lem b b' i (round_unit cb size) rc l freed) [
      | inl (out, _, _) ↦ absurd (omega (arith, out, t.0.0))
      | inr (_, codes, (there, back), bits) ↦ (
        back (λ k lo hi. ground (arith, t.2 k, lo, hi)),
        λ k. ground (arith, bits k, t.2 k, t.0.1 k),
      )
    ]
