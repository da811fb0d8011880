-- ===== src/Bitv/Word.antt =====
-- `bitv_word` of src/bitv.h, an `unsigned long` of 64 bits, as its bits: number 0 is the most
-- significant, which `__builtin_clzl` meets first.
use sphde.Base.{
  ℕ, zero, suc, ◌+◌, ◌-◌, Bool, true, false, not, ◌&&◌, ◌||◌, ltb, ◌==◌, if◌then◌else◌,
}

abbrev pub Word : Type 0
Word = ℕ → Bool

abbrev pub bits_per_long : ℕ
bits_per_long = 64

-- Every number below `n`.
unfoldable pub all_below : ℕ → (ℕ → Bool) → Bool
all_below zero p = true
all_below (suc n) p = p n && all_below n p

abbrev pub same_bit : Bool → Bool → Bool
same_bit true b = b
same_bit false b = not b

-- `a == b`
abbrev pub word_eq : Word → Word → Bool
word_eq a b = all_below bits_per_long (λ k. same_bit (a k) (b k))

abbrev pub is_zero : Word → Bool
is_zero a = all_below bits_per_long (λ k. not (a k))

infix 60 ◌&w◌ ◌|w◌
abbrev pub ◌&w◌ : Word → Word → Word
(a &w b) k = a k && b k

abbrev pub ◌|w◌ : Word → Word → Word
(a |w b) k = a k || b k

-- `~a`
abbrev pub inv : Word → Word
inv a k = not (a k)

-- `a >> n` of an unsigned and of a signed `long`, and `a << n`.
abbrev pub shr : Word → ℕ → Word
shr a n k = if ltb k n then false else a (k - n)

abbrev pub sar : Word → ℕ → Word
sar a n k = if ltb k n then a 0 else a (k - n)

abbrev pub shl : Word → ℕ → Word
shl a n k = if ltb (k + n) bits_per_long then a (k + n) else false

-- `bit_zero`: the most significant bit alone.
abbrev pub bit_zero : Word
bit_zero k = k == 0

-- The first 1 at or after bit `k`, looking at `n` bits.
unfoldable pub first_one : ℕ → Word → ℕ → ℕ
first_one zero a k = k
first_one (suc n) a k = let rest = first_one n a (k + 1) in if a k then k else rest

-- `__builtin_clzl` of a word that is not 0.
unfoldable pub clz : Word → ℕ
unfolding first_one
clz a = first_one bits_per_long a 0

-- The zeros behind the last 1, looking at the bits below `n`.
unfoldable pub zeros_behind : ℕ → Word → ℕ
zeros_behind zero a = 0
zeros_behind (suc n) a = let rest = zeros_behind n a in if a n then 0 else rest + 1

-- `__builtin_ctzl` of a word that is not 0.
unfoldable pub ctz : Word → ℕ
unfolding zeros_behind
ctz a = zeros_behind bits_per_long a

-- `__builtin_popcountl`
unfoldable pub count_ones : ℕ → Word → ℕ
count_ones zero a = 0
count_ones (suc n) a = (if a n then 1 else 0) + count_ones n a
