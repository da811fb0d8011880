-- ===== src/Entry/Memory.antt =====
-- Bytes by address, and values of several bytes in memory, the least significant byte first.
use mathlib.Core.Path.{subst}
use native.Mathlib.Nat.{pow-suc}
use sphde.Base.{
  ℕ, zero, suc, ◌+◌, ◌*◌, ◌/◌, ◌%◌, ◌^◌, ◌≤◌, ◌<◌, ◌≡◌, refl, ap, ◌∙◌, ◌⊎◌, if◌then◌else◌, ◌==◌,
  List, [], ◌∷◌, arith, length,
}

abbrev pub Memory : Type 0
Memory = ℕ → ℕ

abbrev pub write_byte : Memory → ℕ → ℕ → Memory
write_byte m p b a = if a == p then b else m a

unfoldable pub write_bytes : Memory → ℕ → List ℕ → Memory
write_bytes m p [] = m
write_bytes m p (b ∷ bs) = write_bytes (write_byte m p b) (p + 1) bs

unfoldable pub read_bytes : Memory → ℕ → ℕ → List ℕ
read_bytes m p zero = []
read_bytes m p (suc n) = m p ∷ read_bytes m (p + 1) n

-- The `n` low bytes of a value.
unfoldable pub to_bytes : ℕ → ℕ → List ℕ
to_bytes zero v = []
to_bytes (suc n) v = v % 256 ∷ to_bytes n (v / 256)

unfoldable pub of_bytes : List ℕ → ℕ
of_bytes [] = 0
of_bytes (b ∷ bs) = b + 256 * of_bytes bs

-- `*ptr = value` and `*ptr` for a type of `n` bytes.
unfoldable pub store : ℕ → Memory → ℕ → ℕ → Memory
unfolding write_bytes to_bytes
store n m p v = write_bytes m p (to_bytes n v)

unfoldable pub load : ℕ → Memory → ℕ → ℕ
unfolding read_bytes of_bytes
load n m p = of_bytes (read_bytes m p n)

-- Bytes outside the written range stay.
pub write_bytes_outside :
    (m : Memory) (p : ℕ) (bs : List ℕ) (a : ℕ)
    → (a < p) ⊎ (p + length bs ≤ a)
    → write_bytes m p bs a ≡ m a
unfolding write_bytes
write_bytes_outside m p [] a h = refl
write_bytes_outside m p (b ∷ bs) a h =
    ground (arith, write_bytes_outside (write_byte m p b) (p + 1) bs a)

pub read_bytes-write_bytes :
    (m : Memory) (p : ℕ) (bs : List ℕ) → read_bytes (write_bytes m p bs) p (length bs) ≡ bs
unfolding read_bytes write_bytes
read_bytes-write_bytes m p [] = refl
read_bytes-write_bytes m p (b ∷ bs) = ground (
  arith,
  read_bytes-write_bytes (write_byte m p b) (p + 1) bs,
  write_bytes_outside (write_byte m p b) (p + 1) bs p,
)

-- What is read depends on the range alone.
pub read_bytes-eq :
    (m m' : Memory) (p n : ℕ)
    → ((a : ℕ) → p ≤ a → a < p + n → m a ≡ m' a)
    → read_bytes m p n ≡ read_bytes m' p n
unfolding read_bytes
read_bytes-eq m m' p zero h = refl
read_bytes-eq m m' p (suc n) h =
    ground (arith, h p, read_bytes-eq m m' (p + 1) n (λ a lo hi. h a (omega arith) (omega arith)))

pub length-to_bytes : (n v : ℕ) → length (to_bytes n v) ≡ n
unfolding to_bytes
length-to_bytes zero v = refl
length-to_bytes (suc n) v = ap suc (length-to_bytes n (v / 256))

pub of_bytes-to_bytes : (n v : ℕ) → v < 256 ^ n → of_bytes (to_bytes n v) ≡ v
unfolding of_bytes to_bytes
of_bytes-to_bytes zero v h = omega arith
of_bytes-to_bytes (suc n) v h =
    let below : v < 256 ^ n * 256 = rw pow-suc at h in
    omega (arith, of_bytes-to_bytes n (v / 256) (omega arith))

-- A value that fits its type is read back as it was stored.
pub load-store : (n : ℕ) (m : Memory) (p v : ℕ) → v < 256 ^ n → load n (store n m p v) p ≡ v
unfolding load store
load-store n m p v h =
    let stored =
      subst (λ (k : ℕ). read_bytes (write_bytes m p (to_bytes n v)) p k ≡ to_bytes n v)
        (length-to_bytes n v) (read_bytes-write_bytes m p (to_bytes n v)) in
    ap of_bytes stored ∙ of_bytes-to_bytes n v h

pub load-eq :
    (n : ℕ) (m m' : Memory) (p : ℕ)
    → ((a : ℕ) → p ≤ a → a < p + n → m a ≡ m' a)
    → load n m p ≡ load n m' p
unfolding load
load-eq n m m' p h = ap of_bytes (read_bytes-eq m m' p n h)

pub store_outside : (n : ℕ) (m : Memory) (p v a : ℕ) → (a < p) ⊎ (p + n ≤ a) → store n m p v a ≡ m a
unfolding store
store_outside n m p v a h =
    ground (arith, write_bytes_outside m p (to_bytes n v) a, length-to_bytes n v)
