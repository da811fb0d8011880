-- ===== src/Bitv/Roundtrip.antt =====
-- `bitv_free_marked` and `bitv_allocated_size` of src/bitv.c and src/bitv_priv.h on what
-- `bitv_alloc_marked` gave.
use sphde.Base.{
  ℕ, ◌+◌, ◌-◌, ◌≤◌, ◌<◌, ◌≡◌, inl, inr, refl, ap, true, false, ◌||◌, ◌==◌, Option, some, arith,
  ℕ_discrete,
}
use sphde.Bitv.Word.{Word, bits_per_long, ◌&w◌, ◌|w◌, shl, bit_zero, clz, is_zero}
use sphde.Bitv.Units.{mask_to_end_mrk}
use sphde.Bitv.Free.{dealloc_internal, free_marked_at}
use sphde.Bitv.WordLaws.{is_zero_intro, is_zero-false, clz_lem}
use sphde.Bitv.Runs.{in_run}
use sphde.Bitv.Found.{Takes}
use sphde.Bitv.Marked.{Marks, dealloc_internal_lem}

-- The end mark of the mask of a run is its last bit.
mask_to_end_mrk-run :
    (req : Word) (i units k : ℕ)
    → ((j : ℕ) → req j ≡ in_run i units j)
    → 1 ≤ units
    → i + units ≤ bits_per_long
    → mask_to_end_mrk req k ≡ (k == i + units - 1)
mask_to_end_mrk-run req i units k r l room = ground (arith, r k, r (k + 1), l, room)

module _ (units i : ℕ) (w req v endvec : Word) (l : 1 ≤ units) (t : Takes units i w req v)
    (m : Marks v endvec) where
  abbrev marked : Word
  marked = endvec |w mask_to_end_mrk req

  run-room : i + units ≤ bits_per_long
  run-room = t.0.0

  -- The run is of units that were free, so that no mark stood on it, and that are not free now.
  run-bits : (k : ℕ) → i ≤ k → k < i + units → (w k ≡ false) × (endvec k ≡ false) × (v k ≡ true)
  run-bits k lo hi =
      let (run, first, less, mask) = t in
      (ground (arith, less k, lo, hi), m k (run.1 k lo hi), run.1 k lo hi)

  mark-bit : (k : ℕ) → marked k ≡ (endvec k || (k == i + units - 1))
  mark-bit k = ground (arith, mask_to_end_mrk-run req i units k (t.3) l run-room)

  -- The first end mark at or after the place of the run is the one that was set.
  pub clz-marked : clz (shl marked i) ≡ units - 1
  clz-marked =
      clz_lem (shl marked i) (units - 1) (omega (arith, l, run-room))
        (λ k n.
          ground (arith, run-bits (k + i) (omega arith) (omega arith), mark-bit (k + i), n, l))
        (ground (arith, mark-bit (units - 1 + i), l, run-room))

  pub is_zero-marked : is_zero (shl marked i) ≡ false
  is_zero-marked =
      is_zero-false (shl marked i) (units - 1) (omega (arith, l, run-room))
        (ground (arith, mark-bit (units - 1 + i), l, run-room))

  is_zero-begin : is_zero (shl w i &w bit_zero) ≡ true
  is_zero-begin = is_zero_intro (shl w i &w bit_zero) (λ k n. elim (ℕ_discrete k 0) [
    | yes z ↦
        ground (arith, ap (λ (j : ℕ). w (j + i)) z, run-bits i (omega arith) (omega (arith, l)))
    | no z ↦ ground (arith, z)
  ])

  -- What giving the run back leaves.
  given_back : Option ℕ × Word
  given_back = dealloc_internal w i (clz (shl marked i) + 1)

  given_back_lem : (given_back.0 ≡ some 0) × ((k : ℕ) → given_back.1 k ≡ v k)
  unfolding given_back
  given_back_lem =
      elim (dealloc_internal_lem w given_back.1 i (clz (shl marked i) + 1) given_back.0
        (omega arith) refl) [
          | inl (out, _, _) ↦ absurd (omega (arith, out, clz-marked, l, run-room))
          | inr (_, codes, (there, back), bits) ↦ (
            back (λ k lo hi. (run-bits k lo (omega (arith, hi, clz-marked, l))).0),
            λ k. ground (arith, bits k, clz-marked, l, t.2 k, t.0.1 k),
          )
        ]

  -- Freeing at the place of the run succeeds, and restores both words.
  pub free_marked_at-Takes :
      (rc : Option ℕ) (b e : Word)
      → free_marked_at w marked i ≡ (rc, b, e)
      → (rc ≡ some 0) × ((k : ℕ) → b k ≡ v k) × ((k : ℕ) → e k ≡ endvec k)
  unfolding free_marked_at given_back
  free_marked_at-Takes rc b e h =
      let code = ap (λ (p : Option ℕ × Word × Word). p.0) h in
      let word = λ (k : ℕ). ap (λ (p : Option ℕ × Word × Word). p.1 k) h in
      let marks = λ (k : ℕ). ap (λ (p : Option ℕ × Word × Word). p.2 k) h in
      (
        ground (arith, code, is_zero-begin, is_zero-marked, given_back_lem.0),
        λ k. ground (arith, word k, is_zero-begin, is_zero-marked, given_back_lem.1 k),
        λ k. elim (ℕ_discrete k (i + units - 1)) [
          | yes z ↦ ground (
            arith,
            marks k,
            is_zero-begin,
            is_zero-marked,
            clz-marked,
            run-bits k (omega (arith, z, l)) (omega (arith, z, l)),
            z,
            l,
          )
          | no z ↦
              ground (arith, marks k, is_zero-begin, is_zero-marked, clz-marked, mark-bit k, z, l)
        ],
      )
