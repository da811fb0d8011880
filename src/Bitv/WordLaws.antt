-- ===== src/Bitv/WordLaws.antt =====
-- What the tests on words say of their bits.
use sphde.Base.{
  Bool-cases, ℕ, zero, suc, ◌+◌, ◌≤◌, ◌<◌, ◌≡◌, inl, inr, refl, ap, sym, ◌∙◌, Bool, true, false,
  not, arith, dec_lt, ℕ_discrete,
}
use sphde.Bitv.Word.{Word, bits_per_long, all_below, same_bit, word_eq, is_zero, first_one, clz}

pub all_below-true : (n : ℕ) (p : ℕ → Bool) → all_below n p ≡ true → (k : ℕ) → k < n → p k ≡ true
unfolding all_below
all_below-true zero p h k l = absurd (omega arith)
all_below-true (suc n) p h k l = elim (ℕ_discrete k n) [
  | yes e ↦ ground (arith, ap p e)
  | no e ↦ ground (arith, all_below-true n p (ground arith) k (omega arith))
]

pub all_below_intro : (n : ℕ) (p : ℕ → Bool) → ((k : ℕ) → k < n → p k ≡ true) → all_below n p ≡ true
unfolding all_below
all_below_intro zero p h = refl
all_below_intro (suc n) p h =
    ground (arith, h n (omega arith), all_below_intro n p (λ k l. h k (omega arith)))

pub word_eq-true : (a b : Word) → word_eq a b ≡ true → (k : ℕ) → k < bits_per_long → a k ≡ b k
word_eq-true a b h k l =
    ground (arith, all_below-true bits_per_long (λ k. same_bit (a k) (b k)) h k l)

pub word_eq_intro : (a b : Word) → ((k : ℕ) → k < bits_per_long → a k ≡ b k) → word_eq a b ≡ true
word_eq_intro a b h =
    all_below_intro bits_per_long (λ k. same_bit (a k) (b k)) (λ k l. ground (arith, h k l))

pub is_zero-true : (a : Word) → is_zero a ≡ true → (k : ℕ) → k < bits_per_long → a k ≡ false
is_zero-true a h k l = ground (arith, all_below-true bits_per_long (λ k. not (a k)) h k l)

pub is_zero_intro : (a : Word) → ((k : ℕ) → k < bits_per_long → a k ≡ false) → is_zero a ≡ true
is_zero_intro a h = all_below_intro bits_per_long (λ k. not (a k)) (λ k l. ground (arith, h k l))

-- A word with a 1 is not 0.
pub is_zero-false : (a : Word) (k : ℕ) → k < bits_per_long → a k ≡ true → is_zero a ≡ false
is_zero-false a k l h = ground (arith, λ (z : is_zero a ≡ true). is_zero-true a z k l)

-- The search for the first 1 passes over zeros only, and stops at a 1 or at its end.
pub first_one_lem :
    (n : ℕ) (a : Word) (k j : ℕ)
    → first_one n a k ≡ j
    → (k ≤ j) × (j ≤ k + n) × ((i : ℕ) → k ≤ i → i < j → a i ≡ false) × ((j < k + n) → a j ≡ true)
unfolding first_one
first_one_lem zero a k j e = (
  omega (arith, e),
  omega (arith, e),
  λ i l m. absurd (omega (arith, e, l, m)),
  λ l. absurd (omega (arith, e, l)),
)
first_one_lem (suc n) a k j e = elim (Bool-cases (a k)) [
  | inl y ↦
      let eq : k ≡ j = ground (arith, e, y) in
      (
        omega (arith, eq),
        omega (arith, eq),
        λ i l m. absurd (omega (arith, eq, l, m)),
        λ l. ap a (sym eq) ∙ y,
      )
  | inr y ↦
      let (lo, hi, before, at) = first_one_lem n a (k + 1) j (ground (arith, e, y)) in
      (
        omega (arith, lo),
        omega (arith, hi),
        λ i l m. elim (ℕ_discrete i k) [ yes w ↦ ap a w ∙ y | no w ↦ before i (omega arith) m ],
        λ l. at (omega (arith, l)),
      )
]

-- The number of leading zeros of a word that is not 0 is the number of its first 1.
pub clz_lem :
    (a : Word) (j : ℕ)
    → j < bits_per_long
    → ((i : ℕ) → i < j → a i ≡ false)
    → a j ≡ true
    → clz a ≡ j
unfolding clz
clz_lem a j l before at =
    let (lo, hi, zeros, one) = first_one_lem bits_per_long a 0 (first_one bits_per_long a 0) refl in
    elim (dec_lt (first_one bits_per_long a 0) j) [
      | yes less ↦
          absurd (ground (arith, before (first_one bits_per_long a 0) less, one (omega arith)))
      | no ge ↦ elim (dec_lt j (first_one bits_per_long a 0)) [
        | yes less ↦ absurd (ground (arith, zeros j (omega arith) less, at))
        | no le ↦ omega (arith, ge, le)
      ]
    ]

-- Bits before the number of leading zeros are 0.
pub clz-before : (a : Word) (i : ℕ) → i < clz a → a i ≡ false
unfolding clz
clz-before a i l =
    let (lo, hi, zeros, one) = first_one_lem bits_per_long a 0 (first_one bits_per_long a 0) refl in
    zeros i (omega arith) l
