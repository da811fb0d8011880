-- ===== src/Entry/Roundtrip.antt =====
-- What is put into an entry is read back from it, field by field.
use sphde.Base.{
  align_up, ℕ, ◌+◌, ◌^◌, ◌≤◌, ◌<◌, ◌≡◌, inl, refl, true, Option, some, none, List, [], ◌∷◌, arith,
  if◌then◌else◌, map, ◌-◌, ◌∙◌, ap,
}
use sphde.Entry.Memory.{Memory, store, load, load-store, load-eq}
use sphde.Entry.Header.{Handle}
use sphde.Entry.Handle.{Width, one, bytes, add_value, get_value}
use sphde.Entry.Bounds.{add_value_iff, IsSound, add_value-Advances, add_value_outside}

-- A value with its type's size.
pub record Field : Type 0 where
  pub width : Width
  pub value : ℕ

abbrev pub FitsWidth : Field → Type 0
FitsWidth f = f.value < 256 ^ bytes f.width

abbrev pub All {ℓ κ} : {A : Type ℓ} → (A → Type κ) → List A → Type κ
All P [] = Unit
All P (x ∷ xs) = P x × All P xs

-- The calls of a producer, in order; `none` when one of them fails.
unfoldable pub add_all : List Field → Memory → Handle → Option (Memory × Handle)
add_all [] m h = some (m, h)
add_all (f ∷ fs) m h =
    let (done, m', h') = add_value f.width f.value m h in
    let rest = add_all fs m' h' in if done then rest else none

-- The calls of a consumer that knows the types.
unfoldable pub get_all : List Field → Memory → Handle → List ℕ
get_all [] m h = []
get_all (f ∷ fs) m h = let (v, h') = get_value f.width m h in v ∷ get_all fs m h'

-- The handle behind a value of this size.
abbrev past : Width → Handle → Handle
past w h =
    let after = align_up h.next (bytes w) + bytes w in
    record h { next = after; remaining = h.next + h.remaining - after }

add_value_eq :
    (w : Width) (v : ℕ) (m : Memory) (h : Handle)
    → IsSound h
    → (add_value w v m h).0 ≡ true
    → add_value w v m h ≡ (true, store (bytes w) m (align_up h.next (bytes w)) v, past w h)
unfolding add_value
add_value_eq one v m h s e = ground arith
add_value_eq _ v m h s e = ground arith

get_value_eq :
    (w : Width) (m : Memory) (h : Handle)
    → IsSound h
    → align_up h.next (bytes w) + bytes w ≤ h.next + h.remaining
    → get_value w m h ≡ (load (bytes w) m (align_up h.next (bytes w)), past w h)
unfolding get_value
get_value_eq one m h s e = ground arith
get_value_eq _ m h s e = ground arith

-- A value that was added is read where it was added, in any memory that keeps the bytes up to the
-- handle behind it, and the reader's handle is then the writer's.
pub get_value-add_value :
    (w : Width) (v : ℕ) (m m' : Memory) (h : Handle)
    → v < 256 ^ bytes w
    → IsSound h
    → (add_value w v m h).0 ≡ true
    → ((a : ℕ) → a < (add_value w v m h).2.next → m' a ≡ (add_value w v m h).1 a)
    → get_value w m' h ≡ (v, (add_value w v m h).2)
get_value-add_value w v m m' h f s e agree =
    let p = align_up h.next (bytes w) in
    let placed = add_value_eq w v m h s e in
    let same : (a : ℕ) → a < p + bytes w → m' a ≡ store (bytes w) m p v a = rw placed at agree in
    let read : load (bytes w) m' p ≡ v =
      load-eq (bytes w) m' (store (bytes w) m p v) p (λ a lo hi. same a hi)
      ∙ load-store (bytes w) m p v f in
    rw (get_value_eq w m' h s ((add_value_iff w v m h s).0 e), placed, read)

-- Adding fields writes nothing before the handle.
add_all_outside :
    (fs : List Field) (m : Memory) (h : Handle) (m' : Memory) (h' : Handle) (a : ℕ)
    → IsSound h
    → add_all fs m h ≡ some (m', h')
    → a < h.next
    → m' a ≡ m a
unfolding add_all
add_all_outside [] m h m' h' a s e p = ground arith
add_all_outside (f ∷ fs) m h m' h' a s e p =
    let (done, m1, h1) = add_value f.width f.value m h in
    let moved = add_value-Advances f.width f.value m h s in
    ground (
      arith,
      moved,
      add_value_outside f.width f.value m h a s (inl p),
      add_all_outside fs m1 h1 m' h' a moved.still_sound,
    )

-- A consumer that reads the same types in the same order gets the values that the producer added.
pub get_all-add_all :
    (fs : List Field) (m : Memory) (h : Handle) (m' : Memory) (h' : Handle)
    → IsSound h
    → All FitsWidth fs
    → add_all fs m h ≡ some (m', h')
    → get_all fs m' h ≡ map (λ f. f.value) fs
unfolding add_all get_all
get_all-add_all [] m h m' h' s a e = refl
get_all-add_all (f ∷ fs) m h m' h' s a e =
    let (done, m1, h1) = add_value f.width f.value m h in
    let moved = add_value-Advances f.width f.value m h s in
    let later : add_all fs m1 h1 ≡ some (m', h') = ground arith in
    let went_in : done ≡ true = ground arith in
    rw
      (get_value-add_value f.width f.value m m' h a.0 s went_in
        (λ x p. add_all_outside fs m1 h1 m' h' x moved.still_sound later p))
      (ap (◌∷◌ f.value) (get_all-add_all fs m1 h1 m' h' moved.still_sound a.1 later))
