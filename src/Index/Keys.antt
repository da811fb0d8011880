-- ===== src/Index/Keys.antt =====
-- The keys of src/sasindexkey.h on a 64-bit platform: their comparison, and keys of one number.
--
-- A number of 64 bits is its bits' value. `x ^ machine_sign_mask` turns the topmost bit over, which is
-- the sum with 2 ^ 63 in 64 bits, and `x ^ double_mask` all of them. The comparison of bytes of the C
-- library and `value < 0.0` of the floating point unit are parameters.
use Prim.Native.Nat.{Ordering, compare}
use sphde.Base.{
  ◌≡◌, ℕ, zero, suc, ◌+◌, ◌-◌, ◌/◌, ◌%◌, ◌^◌, ◌<◌, Bool, ltb, leb, ◌==◌, if◌then◌else◌, List, [],
  ◌∷◌, arith,
}
use sphde.Index.Order.{KeyOrder}

-- `SASIndexKey_t`
pub record Key : Type 0 where
  pub copy_size : ℕ
  pub compare_size : ℕ
  pub words : List ℕ

unfoldable pub first_word : List ℕ → ℕ
first_word [] = 0
first_word (x ∷ xs) = x

unfoldable pub rest_words : List ℕ → List ℕ
rest_words [] = []
rest_words (x ∷ xs) = xs

-- The loop over the words behind the first.
unfoldable pub compare_words : ℕ → List ℕ → List ℕ → Ordering
unfolding first_word rest_words
compare_words zero xs ys = Ordering.eq
compare_words (suc n) xs ys =
    let later = compare_words n (rest_words xs) (rest_words ys) in
    elim (compare (first_word xs) (first_word ys)) [ Ordering.eq ↦ later | r ↦ r ]

-- `SASIndexKeyCompare`
unfoldable pub key_compare : (List ℕ → List ℕ → ℕ → Ordering) → Key → Key → Ordering
unfolding first_word rest_words compare_words
key_compare memcmp a b = elim (compare (first_word a.words) (first_word b.words)) [
  | Ordering.eq ↦
      (if a.compare_size == b.compare_size
        then (if ltb 8 a.compare_size
            then compare_words (a.compare_size / 8 - 1) (rest_words a.words) (rest_words b.words)
            else Ordering.eq)
        else elim (memcmp a.words b.words
            (if ltb b.compare_size a.compare_size then b.compare_size else a.compare_size)) [
              | Ordering.eq ↦ compare a.compare_size b.compare_size
              | r ↦ r
            ])
  | r ↦ r
]

-- `value ^ machine_sign_mask` and `value ^ double_mask`
unfoldable pub flip_sign : ℕ → ℕ
flip_sign x = (x + 2 ^ 63) % 2 ^ 64

unfoldable pub flip_all : ℕ → ℕ
flip_all x = 2 ^ 64 - 1 - x

unfoldable pub has_sign : ℕ → Bool
has_sign x = leb (2 ^ 63) x

-- `SASIndexKeyInitRef` and `SASIndexKeyInitUInt64`
unfoldable pub init_ref : ℕ → Key
init_ref value = record { copy_size = 16; compare_size = 8; words = value ∷ [] }

unfoldable pub init_uint64 : ℕ → Key
init_uint64 value = record { copy_size = 16; compare_size = 8; words = value ∷ [] }

-- `SASIndexKeyReturn1stUInt64`
unfoldable pub return_uint64 : Key → ℕ
unfolding first_word
return_uint64 key = first_word key.words

-- `SASIndexKeyInitInt64` and `SASIndexKeyReturn1stInt64`, of the number's bits
unfoldable pub init_int64 : ℕ → Key
unfolding flip_sign
init_int64 bits = record { copy_size = 16; compare_size = 8; words = flip_sign bits ∷ [] }

unfoldable pub return_int64 : Key → ℕ
unfolding flip_sign first_word
return_int64 key = flip_sign (first_word key.words)

-- `SASIndexKeyInitDouble` and `SASIndexKeyReturn1stDouble`, of the number's bits
unfoldable pub init_double : (ℕ → Bool) → ℕ → Key
unfolding flip_sign flip_all
init_double below_zero bits = record {
  copy_size = 16;
  compare_size = 8;
  words = (if below_zero bits then flip_all bits else flip_sign bits) ∷ [];
}

unfoldable pub return_double : Key → ℕ
unfolding flip_sign flip_all has_sign first_word
return_double key =
    if has_sign (first_word key.words)
    then flip_sign (first_word key.words)
    else flip_all (first_word key.words)

module _ (memcmp : List ℕ → List ℕ → ℕ → Ordering) where
  pub uint64_cmp : (a b : ℕ) → key_compare memcmp (init_uint64 a) (init_uint64 b) ≡ compare a b
  unfolding key_compare init_uint64 first_word
  uint64_cmp a b = ground arith

  -- Keys of unsigned numbers are in the order of the numbers.
  unfoldable pub uint64_order : KeyOrder ℕ
  uint64_order = record {
    cmp = λ a b. key_compare memcmp (init_uint64 a) (init_uint64 b);
    rank = λ a. a;
    cmp_lem = uint64_cmp;
  }

  -- The order of numbers in two's complement: a negative one is before the others.
  unfoldable pub signed_compare : ℕ → ℕ → Ordering
  unfolding has_sign
  signed_compare a b =
      if has_sign a
      then (if has_sign b then compare a b else Ordering.lt)
      else (if has_sign b then Ordering.gt else compare a b)

  -- Keys of signed numbers of 64 bits are in the order of the numbers, and give the numbers back.
  pub int64_lem :
      (a b : ℕ)
      → a < 2 ^ 64
      → b < 2 ^ 64
      → (key_compare memcmp (init_int64 a) (init_int64 b) ≡ signed_compare a b)
        × (return_int64 (init_int64 a) ≡ a)
  unfolding key_compare init_int64 return_int64 flip_sign first_word signed_compare has_sign
  int64_lem a b l u = (ground (arith, l, u), ground (arith, l, u))

  -- For two doubles whose sign bit says whether they are below 0, the key gives the number back, and the
  -- keys compare by the sign, with equal signs by the magnitude, the greater first below 0.
  pub double_lem :
      (below_zero : ℕ → Bool) (a b : ℕ)
      → a < 2 ^ 64
      → b < 2 ^ 64
      → below_zero a ≡ has_sign a
      → below_zero b ≡ has_sign b
      → (return_double (init_double below_zero a) ≡ a)
        × (key_compare memcmp (init_double below_zero a) (init_double below_zero b) ≡ (
            if has_sign a
            then (if has_sign b then compare b a else Ordering.lt)
            else (if has_sign b then Ordering.gt else compare a b)))
  unfolding key_compare init_double return_double flip_sign flip_all first_word has_sign
  double_lem below_zero a b l u sa sb = (ground (arith, l, u, sa), ground (arith, l, u, sa, sb))
