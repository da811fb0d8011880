-- ===== src/Entry/Bounds.antt =====
-- Filling and reading stay inside the entry, as long as its end is aligned; where it is not, the
-- count of what is left wraps.
use sphde.Base.{
  align_up, ℕ, ◌+◌, ◌%◌, ◌^◌, ◌≤◌, ◌<◌, ◌≡◌, ◌↔◌, ◌⊎◌, true, ◌++◌, [], ◌∷◌, List, some, arith,
  length, length-append,
}
use sphde.Entry.Memory.{Memory, store_outside, write_bytes_outside}
use sphde.Entry.Header.{Handle}
use sphde.Entry.Handle.{
  Width, one, two, four, eight, bytes, add_value, get_value, add_int, add_string, alloc_struct,
}

-- The end of the entry is a multiple of 16, as the allocators leave it, and lies in the address space.
pub record IsSound (h : Handle) : Type 0 where
  pub in_space : h.next + h.remaining < 2 ^ 64
  pub end_aligned : (h.next + h.remaining) % 16 ≡ 0
  pub short_count : h.remaining < 2 ^ 16

-- `h'` is `h` moved on towards the same end.
pub record Advances (h h' : Handle) : Type 0 where
  pub forward : h.next ≤ h'.next
  pub same_end : h'.next + h'.remaining ≡ h.next + h.remaining
  pub same_entry : h'.entry ≡ h.entry
  pub same_size : h'.total_size ≡ h.total_size
  pub still_sound : IsSound h'

-- Adding a value moves the handle on inside the entry, on every branch.
pub add_value-Advances :
    (w : Width) (v : ℕ) (m : Memory) (h : Handle) → IsSound h → Advances h (add_value w v m h).2
unfolding add_value
add_value-Advances one v m h s = ground arith
add_value-Advances _ v m h s = ground arith

-- No byte before the handle's position or past the entry's end is written.
pub add_value_outside :
    (w : Width) (v : ℕ) (m : Memory) (h : Handle) (a : ℕ)
    → IsSound h
    → (a < h.next) ⊎ (h.next + h.remaining ≤ a)
    → (add_value w v m h).1 a ≡ m a
unfolding add_value
add_value_outside one v m h a s o = ground (arith, store_outside 1 m (align_up h.next 1) v a)
add_value_outside two v m h a s o = ground (arith, store_outside 2 m (align_up h.next 2) v a)
add_value_outside four v m h a s o = ground (arith, store_outside 4 m (align_up h.next 4) v a)
add_value_outside eight v m h a s o = ground (arith, store_outside 8 m (align_up h.next 8) v a)

-- A value goes in exactly when its aligned place ends inside the entry.
pub add_value_iff :
    (w : Width) (v : ℕ) (m : Memory) (h : Handle)
    → IsSound h
    → ((add_value w v m h).0 ≡ true) ↔ (align_up h.next (bytes w) + bytes w ≤ h.next + h.remaining)
unfolding add_value
add_value_iff one v m h s = ground arith
add_value_iff _ v m h s = ground arith

-- Where fewer bytes are left than the alignment skips, the count wraps: adding an `int` succeeds and
-- the handle stands past the end of the entry.
pub add_int_overruns :
    (v : ℕ) (m : Memory) (h : Handle)
    → h.next + 8 < 2 ^ 64
    → h.next + h.remaining < align_up h.next 4
    → ((add_int v m h).0 ≡ true) × (h.next + h.remaining < (add_int v m h).2.next)
unfolding add_int
add_int_overruns v m h p q = ground arith

pub get_value-Advances :
    (w : Width) (m : Memory) (h : Handle) → IsSound h → Advances h (get_value w m h).1
unfolding get_value
get_value-Advances one m h s = ground arith
get_value-Advances _ m h s = ground arith

pub add_string-Advances :
    (text : List ℕ) (m : Memory) (h : Handle)
    → length text + 1 < 2 ^ 31
    → IsSound h
    → Advances h (add_string text m h).2
unfolding add_string
add_string-Advances text m h short s = ground arith

pub add_string_outside :
    (text : List ℕ) (m : Memory) (h : Handle) (a : ℕ)
    → length text + 1 < 2 ^ 31
    → (a < h.next) ⊎ (h.next + h.remaining ≤ a)
    → (add_string text m h).1 a ≡ m a
unfolding add_string
add_string_outside text m h a short o =
    ground (arith, write_bytes_outside m h.next (text ++ 0 ∷ []) a, length-append text (0 ∷ []))

-- A text whose length does not fit an `int` goes in however little is left, and the handle then stands
-- before its place.
pub add_string_overruns :
    (text : List ℕ) (m : Memory) (h : Handle)
    → 2 ^ 31 ≤ length text + 1
    → length text + 1 < 2 ^ 32
    → 2 ^ 31 ≤ h.next
    → h.next < 2 ^ 64
    → ((add_string text m h).0 ≡ true) × ((add_string text m h).2.next < h.next)
unfolding add_string
add_string_overruns text m h long below low high = ground arith

-- Space for a `struct` lies inside the entry and is aligned.
pub alloc_struct_lem :
    (h : Handle) (size p : ℕ) (w : Width)
    → IsSound h
    → (alloc_struct h size (bytes w)).0 ≡ some p
    → (p % bytes w ≡ 0)
      × (h.next ≤ p)
      × (p + size ≤ h.next + h.remaining)
      × Advances h (alloc_struct h size (bytes w)).1
      × ((alloc_struct h size (bytes w)).1.next ≡ p + size)
unfolding alloc_struct
alloc_struct_lem h size p one s e = ground arith
alloc_struct_lem h size p _ s e = ground arith
