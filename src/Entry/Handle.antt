-- ===== src/Entry/Handle.antt =====
-- Filling an entry and reading it through a handle (src/sphlfentry.h).
--
-- The types have the sizes and alignments of a 64-bit platform, each aligned to its size. A `short`,
-- `int`, `long`, pointer, `float` or `double` is its bit pattern. Adding returns 0 or -1 in the
-- source; here the flag tells whether the value went in.
use sphde.Base.{
  align_up, sub64, ℕ, ◌+◌, ◌-◌, ◌%◌, ◌^◌, Bool, true, false, ◌||◌, ltb, leb, ◌==◌, if◌then◌else◌,
  Option, none, some, List, [], ◌∷◌, ◌++◌, length, zero, suc,
}
use sphde.Entry.Memory.{Memory, write_bytes, store, load}
use sphde.Entry.Header.{Handle}

-- The sizes of the values that an entry holds.
pub data Width : Type 0 where
  one two four eight : Width

abbrev pub bytes : Width → ℕ
bytes one = 1
bytes two = 2
bytes four = 4
bytes eight = 8

-- What is left behind the aligned address, as the `unsigned short` that the source keeps.
abbrev pub left16 : Handle → ℕ → ℕ
left16 h ptr =
    if ptr == h.next then h.remaining else (h.remaining + 2 ^ 64 - sub64 ptr h.next) % 2 ^ 16

-- The same as an `unsigned long`, in the functions for a `struct`.
abbrev pub left64 : Handle → ℕ → ℕ
left64 h ptr = if ptr == h.next then h.remaining else sub64 h.remaining (sub64 ptr h.next)

-- The common text of `SPHLFEntryAddShort` to `SPHLFEntryAddDouble`, at the size of the type.
unfoldable pub add_value : Width → ℕ → Memory → Handle → Bool × Memory × Handle
add_value w v m h =
    let size = bytes w in
    let ptr = align_up h.next size in
    let len = left16 h ptr in
    if leb size len
    then (
      true,
      store size m ptr v,
      record h { next = (ptr + size) % 2 ^ 64; remaining = len - size },
    )
    else (false, m, h)

-- The common text of `SPHLFEntryGetNextShort` to `SPHLFEntryGetNextDouble`; 0 where nothing is left.
unfoldable pub get_value : Width → Memory → Handle → ℕ × Handle
get_value w m h =
    let size = bytes w in
    let ptr = align_up h.next size in
    let len = left16 h ptr in
    if leb size len
    then (load size m ptr, record h { next = (ptr + size) % 2 ^ 64; remaining = len - size })
    else (0, h)

unfoldable pub add_char : ℕ → Memory → Handle → Bool × Memory × Handle
add_char v m h =
    if leb 1 h.remaining
    then (
      true,
      store 1 m h.next v,
      record h { next = (h.next + 1) % 2 ^ 64; remaining = h.remaining - 1 },
    )
    else (false, m, h)

unfoldable pub get_next_char : Memory → Handle → ℕ × Handle
get_next_char m h =
    if leb 1 h.remaining
    then (load 1 m h.next, record h { next = (h.next + 1) % 2 ^ 64; remaining = h.remaining - 1 })
    else (0, h)

unfoldable pub add_short : ℕ → Memory → Handle → Bool × Memory × Handle
unfolding add_value
add_short = add_value two

unfoldable pub add_int : ℕ → Memory → Handle → Bool × Memory × Handle
unfolding add_value
add_int = add_value four

unfoldable pub add_long : ℕ → Memory → Handle → Bool × Memory × Handle
unfolding add_value
add_long = add_value eight

unfoldable pub add_ptr : ℕ → Memory → Handle → Bool × Memory × Handle
unfolding add_value
add_ptr = add_value eight

unfoldable pub add_long_long : ℕ → Memory → Handle → Bool × Memory × Handle
unfolding add_value
add_long_long = add_value eight

unfoldable pub add_float : ℕ → Memory → Handle → Bool × Memory × Handle
unfolding add_value
add_float = add_value four

unfoldable pub add_double : ℕ → Memory → Handle → Bool × Memory × Handle
unfolding add_value
add_double = add_value eight

unfoldable pub get_next_short : Memory → Handle → ℕ × Handle
unfolding get_value
get_next_short = get_value two

unfoldable pub get_next_int : Memory → Handle → ℕ × Handle
unfolding get_value
get_next_int = get_value four

unfoldable pub get_next_long : Memory → Handle → ℕ × Handle
unfolding get_value
get_next_long = get_value eight

unfoldable pub get_next_ptr : Memory → Handle → ℕ × Handle
unfolding get_value
get_next_ptr = get_value eight

unfoldable pub get_next_long_long : Memory → Handle → ℕ × Handle
unfolding get_value
get_next_long_long = get_value eight

unfoldable pub get_next_float : Memory → Handle → ℕ × Handle
unfolding get_value
get_next_float = get_value four

unfoldable pub get_next_double : Memory → Handle → ℕ × Handle
unfolding get_value
get_next_double = get_value eight

-- `SPHLFEntryGetStructPtr` and `SPHLFEntryAllocStruct`: space for `size` bytes at a multiple of `align`,
-- or NULL.
unfoldable pub get_struct_ptr : Handle → ℕ → ℕ → Option ℕ × Handle
get_struct_ptr h size align =
    let ptr = align_up h.next align in
    let len = left64 h ptr in
    if leb size len
    then (some ptr, record h { next = (ptr + size) % 2 ^ 64; remaining = (len - size) % 2 ^ 16 })
    else (none, h)

unfoldable pub alloc_struct : Handle → ℕ → ℕ → Option ℕ × Handle
alloc_struct h size align =
    let ptr = align_up h.next align in
    let len = left64 h ptr in
    if leb size len
    then (some ptr, record h { next = (ptr + size) % 2 ^ 64; remaining = (len - size) % 2 ^ 16 })
    else (none, h)

unfoldable pub get_free_ptr : Handle → ℕ
get_free_ptr h = h.next

-- `int vlen = (strlen (value) + 1)`, as its 32 bits.
abbrev pub int_len : ℕ → ℕ
int_len n = (n + 1) % 2 ^ 32

-- `len >= vlen`: an `int` of which the first bit is set is negative, and below every length.
abbrev pub text_fits : ℕ → Handle → Bool
text_fits vlen h = leb (2 ^ 31) vlen || leb vlen h.remaining

-- `ptr += vlen` and `len -= vlen`, with `vlen` extended by its sign.
abbrev pub past_text : ℕ → Handle → Handle
past_text vlen h = record h {
  next = (h.next + (if ltb vlen (2 ^ 31) then vlen else vlen + (2 ^ 64 - 2 ^ 32))) % 2 ^ 64;
  remaining = (h.remaining + 2 ^ 32 - vlen) % 2 ^ 16;
}

-- `SPHLFEntryAddString`. The text is its bytes before the terminating 0.
unfoldable pub add_string : List ℕ → Memory → Handle → Bool × Memory × Handle
add_string text m h =
    let vlen = int_len (length text) in
    if text_fits vlen h
    then (true, write_bytes m h.next (text ++ 0 ∷ []), past_text vlen h)
    else (false, m, h)

-- `strlen` at `p`, looking at `fuel` bytes at most.
unfoldable pub strlen : ℕ → Memory → ℕ → ℕ
strlen zero m p = 0
strlen (suc fuel) m p = let rest = strlen fuel m (p + 1) in if m p == 0 then 0 else rest + 1

-- `SPHLFEntryGetNextString`: the address of the text, or NULL. No text is as long as the address space.
unfoldable pub get_next_string : Memory → Handle → Option ℕ × Handle
get_next_string m h =
    let vlen = int_len (strlen (2 ^ 64) m h.next) in
    if text_fits vlen h then (some h.next, past_text vlen h) else (none, h)
