-- ===== src/Base/Words.antt =====
-- Arithmetic of `unsigned long`, 64 bits wide.
use Prim.Native.Nat.{ℕ, ◌+◌, ◌-◌, ◌*◌, ◌/◌, ◌%◌, ◌^◌}

abbrev pub add64 : ℕ → ℕ → ℕ
add64 a b = (a + b) % 2 ^ 64

abbrev pub sub64 : ℕ → ℕ → ℕ
sub64 a b = (a + 2 ^ 64 - b) % 2 ^ 64

-- `(p + (align - 1)) & ~(align - 1)`, for an alignment that is a power of two.
abbrev pub align_up : ℕ → ℕ → ℕ
align_up p align = (p + (align - 1)) % 2 ^ 64 / align * align
