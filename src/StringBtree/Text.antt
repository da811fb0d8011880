-- ===== src/StringBtree/Text.antt =====
-- The keys of src/sasstringbtree.cpp: strings of bytes, and the comparison of them by `strcmp`.
--
-- A string is the list of its bytes up to the one that is 0. The B-tree compares strings only by
-- `strcmp`, of the C standard library, which goes by the first byte that differs.
use Prim.Native.Nat.{Ordering, compare}
use sphde.Base.{
  ◌&&◌, ℕ, zero, suc, ◌+◌, ◌*◌, ◌^◌, ◌≤◌, ◌<◌, ◌⊎◌, inl, inr, ◌≡◌, refl, sym, ◌∙◌, Bool, true,
  false, ltb, List, [], ◌∷◌, arith,
}
use native.Mathlib.Nat.{mul-le-mul_right}
use sphde.Index.Order.{KeyOrder}

unfoldable pub strcmp : List ℕ → List ℕ → Ordering
strcmp [] [] = Ordering.eq
strcmp [] (y ∷ ys) = Ordering.lt
strcmp (x ∷ xs) [] = Ordering.gt
strcmp (x ∷ xs) (y ∷ ys) =
    let later = strcmp xs ys in elim (compare x y) [ Ordering.eq ↦ later | r ↦ r ]

-- Whether the list is that of a string of at most so many bytes.
unfoldable pub is_text : ℕ → List ℕ → Bool
is_text n [] = true
is_text zero (x ∷ xs) = false
is_text (suc n) (x ∷ xs) = ltb 0 x && ltb x 256 && is_text n xs

-- The number whose digits to the base 256 are the bytes, filled up with 0 to so many.
unfoldable pub rank_of : ℕ → List ℕ → ℕ
rank_of n [] = 0
rank_of zero (x ∷ xs) = 0
rank_of (suc n) (x ∷ xs) = x * 256 ^ n + rank_of n xs

pow_suc : (n : ℕ) → 256 ^ suc n ≡ 256 * 256 ^ n
pow_suc n = omega arith

pow_pos : (n : ℕ) → 1 ≤ 256 ^ n
pow_pos zero = omega arith
pow_pos (suc n) = omega (arith, pow_suc n, pow_pos n)

rank_of-lt : (n : ℕ) (xs : List ℕ) → is_text n xs ≡ true → rank_of n xs < 256 ^ n
unfolding is_text rank_of
rank_of-lt n [] e = omega (arith, pow_pos n)
rank_of-lt zero (x ∷ xs) e = ground arith
rank_of-lt (suc n) (x ∷ xs) e =
    let small : x < 256 = ground arith in
    let rest : is_text n xs ≡ true = ground arith in
    omega (arith, pow_suc n, rank_of-lt n xs rest, mul-le-mul_right (256 ^ n) small)

compare-lt : (a b : ℕ) → a < b → compare a b ≡ Ordering.lt
compare-lt a b l = ground arith

compare-gt : (a b : ℕ) → b < a → compare a b ≡ Ordering.gt
compare-gt a b l = ground arith

compare_same : (a : ℕ) → compare a a ≡ Ordering.eq
compare_same a = ground arith

compare-add : (c a b : ℕ) → compare (c + a) (c + b) ≡ compare a b
compare-add c a b = ground arith

first_byte :
    (n x y : ℕ) (xs ys : List ℕ)
    → x < y
    → rank_of n xs < 256 ^ n
    → rank_of (suc n) (x ∷ xs) < rank_of (suc n) (y ∷ ys)
unfolding rank_of
first_byte n x y xs ys l small = omega (arith, small, mul-le-mul_right (256 ^ n) l)

tri : (x y : ℕ) → (x < y) ⊎ ((x ≡ y) ⊎ (y < x))
tri x y = ground arith

strcmp-lt : (x y : ℕ) (xs ys : List ℕ) → x < y → strcmp (x ∷ xs) (y ∷ ys) ≡ Ordering.lt
unfolding strcmp
strcmp-lt x y xs ys l = rw (strcmp, compare-lt x y l) refl

strcmp-gt : (x y : ℕ) (xs ys : List ℕ) → y < x → strcmp (x ∷ xs) (y ∷ ys) ≡ Ordering.gt
unfolding strcmp
strcmp-gt x y xs ys l = rw (strcmp, compare-gt x y l) refl

strcmp-eq : (x : ℕ) (xs ys : List ℕ) → strcmp (x ∷ xs) (x ∷ ys) ≡ strcmp xs ys
unfolding strcmp
strcmp-eq x xs ys = rw (strcmp, compare_same x) refl

strcmp_lem :
    (n : ℕ) (xs ys : List ℕ)
    → is_text n xs ≡ true
    → is_text n ys ≡ true
    → strcmp xs ys ≡ compare (rank_of n xs) (rank_of n ys)
unfolding strcmp is_text rank_of
strcmp_lem n [] [] e f = refl
strcmp_lem zero [] (y ∷ ys) e f = ground arith
strcmp_lem (suc n) [] (y ∷ ys) e f =
    let some_byte : 0 < y = ground arith in
    sym (
      compare-lt 0 (rank_of (suc n) (y ∷ ys))
        (omega (arith, pow_pos n, mul-le-mul_right (256 ^ n) some_byte)))
strcmp_lem zero (x ∷ xs) ys e f = ground arith
strcmp_lem (suc n) (x ∷ xs) [] e f =
    let some_byte : 0 < x = ground arith in
    sym (
      compare-gt (rank_of (suc n) (x ∷ xs)) 0
        (omega (arith, pow_pos n, mul-le-mul_right (256 ^ n) some_byte)))
strcmp_lem (suc n) (x ∷ xs) (y ∷ ys) e f =
    let rest : is_text n xs ≡ true = ground arith in
    let rest' : is_text n ys ≡ true = ground arith in
    let r = rank_of (suc n) (x ∷ xs) in
    let r' = rank_of (suc n) (y ∷ ys) in
    elim (tri x y) [
      | inl l ↦
          strcmp-lt x y xs ys l
          ∙ sym (compare-lt r r' (first_byte n x y xs ys l (rank_of-lt n xs rest)))
      | inr (inl same) ↦ rw same (
          strcmp-eq y xs ys
          ∙ strcmp_lem n xs ys rest rest'
          ∙ sym (compare-add (y * 256 ^ n) (rank_of n xs) (rank_of n ys)))
      | inr (inr l) ↦
          strcmp-gt x y xs ys l
          ∙ sym (compare-gt r r' (first_byte n y x ys xs l (rank_of-lt n ys rest')))
    ]

-- A key of at most `limit` bytes.
pub record Text (limit : ℕ) : Type 0 where
  pub bytes : List ℕ
  pub valid : is_text limit bytes ≡ true

-- `strcmp (target, node->keys[position])`
unfoldable pub compare_texts : {limit : ℕ} → Text limit → Text limit → Ordering
compare_texts a b = strcmp a.bytes b.bytes

module _ {limit : ℕ} where
  unfoldable pub rank_text : Text limit → ℕ
  rank_text a = rank_of limit a.bytes

  pub rank_text-lt : (a : Text limit) → rank_text a < 256 ^ limit
  unfolding rank_text
  rank_text-lt a = rank_of-lt limit a.bytes a.valid

  pub compare_texts_lem :
      (a b : Text limit) → compare_texts a b ≡ compare (rank_text a) (rank_text b)
  unfolding compare_texts rank_text
  compare_texts_lem a b = strcmp_lem limit a.bytes b.bytes a.valid b.valid

  unfoldable pub text_order : KeyOrder (Text limit)
  text_order = record { cmp = compare_texts; rank = rank_text; cmp_lem = compare_texts_lem }
