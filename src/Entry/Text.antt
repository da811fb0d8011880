-- ===== src/Entry/Text.antt =====
-- A text that was added is found and read back.
use mathlib.Core.List.{tail}
use sphde.Base.{
  ℕ, zero, suc, ◌+◌, ◌^◌, ◌<◌, ◌≡◌, ◌≢◌, refl, ap, ◌∙◌, sym, true, some, List, [], ◌∷◌, ◌++◌, arith,
  length, length-append, ◌-◌,
}
use sphde.Entry.Memory.{Memory, write_bytes, read_bytes, read_bytes-write_bytes, read_bytes-eq}
use sphde.Entry.Header.{Handle}
use sphde.Entry.Handle.{add_string, get_next_string, strlen}
use sphde.Entry.Bounds.{IsSound}

-- A C string holds no 0 before its end.
abbrev pub NoZero : List ℕ → Type 0
NoZero [] = Unit
NoZero (b ∷ text) = (b ≢ 0) × NoZero text

-- `strlen` at a text that stands in memory with its end.
strlen_lem :
    (fuel : ℕ) (m : Memory) (p : ℕ) (text : List ℕ)
    → NoZero text
    → length text < fuel
    → read_bytes m p (suc (length text)) ≡ text ++ 0 ∷ []
    → strlen fuel m p ≡ length text
unfolding strlen read_bytes
strlen_lem zero m p text z l e = absurd (omega arith)
strlen_lem (suc fuel) m p [] z l e = ground arith
strlen_lem (suc fuel) m p (b ∷ text) z l e =
    ground (arith, strlen_lem fuel m (p + 1) text z.1 (omega arith) (ap tail e))

-- The handle behind `n` bytes and their end.
abbrev past : ℕ → Handle → Handle
past n h = record h { next = h.next + (n + 1); remaining = h.remaining - (n + 1) }

add_string-lt :
    (text : List ℕ) (m : Memory) (h : Handle)
    → length text + 1 < 2 ^ 31
    → (add_string text m h).0 ≡ true
    → length text < h.remaining
unfolding add_string
add_string-lt text m h short e = ground arith

add_string_eq :
    (text : List ℕ) (m : Memory) (h : Handle)
    → IsSound h
    → length text + 1 < 2 ^ 31
    → (add_string text m h).0 ≡ true
    → add_string text m h ≡ (true, write_bytes m h.next (text ++ 0 ∷ []), past (length text) h)
unfolding add_string
add_string_eq text m h s short e = ground arith

get_next_string_eq :
    (m : Memory) (h : Handle) (n : ℕ)
    → IsSound h
    → strlen (2 ^ 64) m h.next ≡ n
    → n < h.remaining
    → get_next_string m h ≡ (some h.next, past n h)
unfolding get_next_string
get_next_string_eq m h n s e l = ground (arith, e)

-- Of what is read, the first part is read alone.
read_bytes_prefix :
    (m : Memory) (p : ℕ) (xs ys : List ℕ)
    → read_bytes m p (length (xs ++ ys)) ≡ xs ++ ys
    → read_bytes m p (length xs) ≡ xs
unfolding read_bytes
read_bytes_prefix m p [] ys e = refl
read_bytes_prefix m p (x ∷ xs) ys e = ground (arith, read_bytes_prefix m (p + 1) xs ys (ap tail e))

-- For a text with no 0 in it, of less than 2 ^ 31 - 1 bytes, that was added through a handle whose end is
-- aligned: the reader gets its address, its bytes stand there, and the reader's handle is then the
-- writer's, in any memory that keeps the bytes up to the handle behind it.
pub get_next_string-add_string :
    (text : List ℕ) (m m' : Memory) (h : Handle)
    → NoZero text
    → length text + 1 < 2 ^ 31
    → IsSound h
    → (add_string text m h).0 ≡ true
    → ((a : ℕ) → a < (add_string text m h).2.next → m' a ≡ (add_string text m h).1 a)
    → (get_next_string m' h ≡ (some h.next, (add_string text m h).2))
      × (read_bytes m' h.next (length text) ≡ text)
get_next_string-add_string text m m' h z short s e agree =
    let whole = text ++ 0 ∷ [] in
    let size : length whole ≡ suc (length text) = omega (arith, length-append text (0 ∷ [])) in
    let done = add_string_eq text m h s short e in
    let same : (a : ℕ) → a < h.next + (length text + 1) → m' a ≡ write_bytes m h.next whole a =
      rw done at agree in
    let found : read_bytes m' h.next (length whole) ≡ whole =
      read_bytes-eq m' (write_bytes m h.next whole) h.next (length whole)
        (λ a lo hi. same a (omega (arith, size)))
      ∙ read_bytes-write_bytes m h.next whole in
    let counted =
      strlen_lem (2 ^ 64) m' h.next text z (omega (arith, add_string-lt text m h short e))
        (ap (read_bytes m' h.next) (sym size) ∙ found) in
    (
      get_next_string_eq m' h (length text) s counted (add_string-lt text m h short e)
          ∙ ap (λ r. (some h.next, r.2)) (sym done),
      read_bytes_prefix m' h.next text (0 ∷ []) found,
    )
