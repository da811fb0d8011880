-- ===== src/Bitv/Calls.antt =====
-- The calls `bitv_alloc_marked`, `bitv_free_marked`, `bitv_allocated_size` and `bitv_free_space` of
-- src/bitv.c and src/bitv_priv.h together, on a word and its end marks.
use sphde.Base.{
  ℕ, ◌+◌, ◌*◌, ◌^◌, ◌/◌, ◌%◌, ◌≤◌, ◌<◌, ◌≡◌, ◌⊎◌, inl, inr, refl, ap, sym, ◌∙◌, Bool, if◌then◌else◌,
  List, [], Option, some, arith,
}
use native.Mathlib.Nat.{one-le-pow, mul-div_cancel, add-mul-div_right}
use sphde.Bitv.Word.{Word, bits_per_long, ◌|w◌, shl, clz, is_zero}
use sphde.Bitv.Units.{ControlBlock, round_unit, mask_to_end_mrk, offset_of, allocated_size}
use sphde.Bitv.Alloc.{Outcome, granted, refused, stuck, marked_loop, alloc_marked}
use sphde.Bitv.Free.{free_marked_at, free_marked}
use sphde.Bitv.Found.{Swapped, marked_loop-Takes}
use sphde.Bitv.Marked.{Marks}
use sphde.Bitv.Roundtrip.{free_marked_at-Takes, clz-marked, is_zero-marked}

pub Outcome-cases :
    (o : Outcome)
    → ((i : ℕ) × (w : Word) × (req : Word) × (o ≡ granted i w req))
      ⊎ ((w : Word) × (o ≡ refused w))
      ⊎ ((w : Word) × (o ≡ stuck w))
Outcome-cases (granted i w req) = inl (i, w, req, refl)
Outcome-cases (refused w) = inr (inl (w, refl))
Outcome-cases (stuck w) = inr (inr (w, refl))

abbrev Result : Type 0
Result = Option ℕ × Word × Word

-- An allocation that succeeds comes from a swap at some bit, whose end mark it sets.
pub alloc_marked-granted :
    (cb : ControlBlock) (bvec endvec b e : Word) (size off : ℕ) (found : List Word)
    → alloc_marked cb bvec endvec size found ≡ (some off, b, e)
    → (i : ℕ) × (req : Word) × (marked_loop bvec (round_unit cb size) 0 found ≡ granted i b req)
      × (off ≡ i * 2 ^ cb.alloc_shift)
      × (e ≡ (endvec |w mask_to_end_mrk req))
unfolding alloc_marked
alloc_marked-granted cb bvec endvec b e size off found h =
    elim (Outcome-cases (marked_loop bvec (round_unit cb size) 0 found)) [
      | inl (i, w, req, o) ↦
          let eq : alloc_marked cb bvec endvec size found
              ≡ (some (i * 2 ^ cb.alloc_shift), w, endvec |w mask_to_end_mrk req) =
            ground (arith, o) in
          let same = sym eq ∙ h in
          let offset = ap (λ (p : Result). p.0) same in
          let word : w ≡ b = ap (λ (p : Result). p.1) same in
          (
            i,
            req,
            o ∙ ap (λ (x : Word). granted i x req) word,
            ground (arith, offset),
            sym (ap (λ (p : Result). p.2) same),
          )
      | inr (inl (w, o)) ↦ absurd (ground (arith, ap (λ (p : Result). p.0) h, o))
      | inr (inr (w, o)) ↦ absurd (ground (arith, ap (λ (p : Result). p.0) h, o))
    ]

-- The offset in units of an address in a storage whose words are of 64 units.
pub offset_of_lem :
    (cb : ControlBlock) (at off i q : ℕ)
    → i < bits_per_long
    → off ≡ i * 2 ^ cb.alloc_shift
    → at ≡ off + q * bits_per_long * 2 ^ cb.alloc_shift
    → offset_of cb at ≡ i
unfolding offset_of
offset_of_lem cb at off i q l o a =
    let unit = one-le-pow cb.alloc_shift 2 (omega arith) in
    let quotient =
      ap (λ (n : ℕ). n / 2 ^ cb.alloc_shift)
        (a ∙ ap (λ (n : ℕ). n + q * bits_per_long * 2 ^ cb.alloc_shift) o)
      ∙ add-mul-div_right (i * 2 ^ cb.alloc_shift) (q * bits_per_long) unit
      ∙ ap (λ (n : ℕ). n + q * bits_per_long) (mul-div_cancel i unit) in
    ap (λ (n : ℕ). n % bits_per_long) quotient ∙ omega (arith, l)

-- On words where no free unit is marked, what was allocated at `off` is freed at an address `at` of
-- that offset in its storage: the call returns 0 and restores the bits and the marks.
pub free_marked-alloc_marked :
    (cb : ControlBlock) (bvec endvec b e b' e' : Word) (size off at q : ℕ) (rc : Option ℕ)
    → 1 ≤ round_unit cb size
    → Marks bvec endvec
    → alloc_marked cb bvec endvec size [] ≡ (some off, b, e)
    → at ≡ off + q * bits_per_long * 2 ^ cb.alloc_shift
    → free_marked cb b e at ≡ (rc, b', e')
    → (rc ≡ some 0) × ((k : ℕ) → b' k ≡ bvec k) × ((k : ℕ) → e' k ≡ endvec k)
unfolding Swapped free_marked
free_marked-alloc_marked cb bvec endvec b e b' e' size off at q rc l m h a f =
    let (i, req, loop, offset, marks) = alloc_marked-granted cb bvec endvec b e size off [] h in
    let t = marked_loop-Takes [] bvec (round_unit cb size) 0 i b req l loop in
    let place = offset_of_lem cb at off i q (omega (arith, l, t.0.0)) offset a in
    free_marked_at-Takes (round_unit cb size) i b req bvec endvec l t m rc b' e' (
      sym (ap (λ (x : Word). free_marked_at b x i) marks)
      ∙ ap (λ (n : ℕ). free_marked_at b e n) (sym place)
      ∙ f)

pub allocated_size-alloc_marked :
    (cb : ControlBlock) (bvec endvec b e : Word) (size off at q : ℕ)
    → 1 ≤ round_unit cb size
    → Marks bvec endvec
    → alloc_marked cb bvec endvec size [] ≡ (some off, b, e)
    → at ≡ off + q * bits_per_long * 2 ^ cb.alloc_shift
    → allocated_size cb e at ≡ round_unit cb size * 2 ^ cb.alloc_shift % 2 ^ 64
unfolding Swapped allocated_size
allocated_size-alloc_marked cb bvec endvec b e size off at q l m h a =
    let (i, req, loop, offset, marks) = alloc_marked-granted cb bvec endvec b e size off [] h in
    let t = marked_loop-Takes [] bvec (round_unit cb size) 0 i b req l loop in
    let place = offset_of_lem cb at off i q (omega (arith, l, t.0.0)) offset a in
    let marked = endvec |w mask_to_end_mrk req in
    let size_of =
      λ (x : Word). if is_zero x then 0 else (clz x + 1) * 2 ^ cb.alloc_shift % 2 ^ 64 in
    ap (λ (n : ℕ). size_of (shl e n)) place
    ∙ ap (λ (x : Word). size_of (shl x i)) marks
    ∙ ap (λ (z : Bool). if z then 0 else (clz (shl marked i) + 1) * 2 ^ cb.alloc_shift % 2 ^ 64)
        (is_zero-marked (round_unit cb size) i b req bvec endvec l t m)
    ∙ ap (λ (n : ℕ). n * 2 ^ cb.alloc_shift % 2 ^ 64)
        (ground (arith, clz-marked (round_unit cb size) i b req bvec endvec l t m, l))

-- After an allocation too no free unit is marked.
pub alloc_marked-Marks :
    (cb : ControlBlock) (bvec endvec b e : Word) (size off : ℕ)
    → 1 ≤ round_unit cb size
    → Marks bvec endvec
    → alloc_marked cb bvec endvec size [] ≡ (some off, b, e)
    → Marks b e
unfolding Swapped
alloc_marked-Marks cb bvec endvec b e size off l m h k free =
    let (i, req, loop, offset, marks) = alloc_marked-granted cb bvec endvec b e size off [] h in
    let t = marked_loop-Takes [] bvec (round_unit cb size) 0 i b req l loop in
    ap (λ (x : Word). x k) marks ∙ ground (arith, t.2 k, t.3 k, free, m k)
