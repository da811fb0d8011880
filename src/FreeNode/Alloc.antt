-- ===== src/FreeNode/Alloc.antt =====
-- Allocation from a free list: what is taken, what is left, and when it fails.
use sphde.Base.{
  ℕ, ◌+◌, ◌-◌, ◌%◌, ◌≤◌, ◌<◌, ◌≡◌, ◌⊎◌, inl, inr, true, some, ◌||◌, leb, [], ◌∷◌, arith,
  Option-cases, Bool-cases, ◌==◌, ◌^◌,
}
use mathlib.Core.Path.{subst}
use native.Mathlib.Nat.{mod-eq_of_lt}
use sphde.FreeNode.{
  Node, FreeList, node_align, alloc_node, round_size, alloc_first, alloc_space, insert_node,
  dealloc_space,
}
use sphde.FreeNode.Shape.{FitsAbove, FitsFrom, IsValid, IsApart, round_size_bounds}
use sphde.FreeNode.Cover.{in_block, covers}

-- First fit as a relation: the space is the front of the first node that is big enough.
pub data Takes (size : ℕ) : FreeList → ℕ → FreeList → Type 0 where
  exact : (h : Node) (rest : FreeList) → h.size ≡ size → Takes size (h ∷ rest) h.addr rest
  front :
      (h : Node) (rest : FreeList)
      → size < h.size
      → Takes size (h ∷ rest) h.addr (record { addr = h.addr + size; size = h.size - size } ∷ rest)
  later :
      (h : Node) {rest : FreeList} {at : ℕ} {rest' : FreeList}
      → h.size < size
      → Takes size rest at rest'
      → Takes size (h ∷ rest) at (h ∷ rest')

alloc_node-Takes :
    (lo size : ℕ) (h : Node) (rest : FreeList)
    → FitsAbove lo h
    → size ≤ h.size
    → let (at, l') = alloc_node h rest size in Takes size (h ∷ rest) at l'
unfolding alloc_node
alloc_node-Takes lo size h rest f p = elim (Bool-cases (h.size - size == 0)) [
  | inl e ↦ rw e (exact h rest (ground arith))
  | inr e ↦
      rw (e, mod-eq_of_lt {n = h.addr + size} {m = 2 ^ 64} (omega arith))
        (front h rest (ground arith))
]

alloc_first-Takes :
    (lo size : ℕ) (l : FreeList) (at : ℕ) (l' : FreeList)
    → FitsFrom lo l
    → alloc_first l size ≡ some (at, l')
    → Takes size l at l'
unfolding alloc_first
alloc_first-Takes lo size [] at l' f e = cc
alloc_first-Takes lo size (h ∷ rest) at l' f e = elim (Bool-cases (leb size h.size)) [
  | inl fits ↦
      subst (λ (r : ℕ × FreeList). Takes size (h ∷ rest) r.0 r.1) (ground arith)
        (alloc_node-Takes lo size h rest f.0 (ground arith))
  | inr short ↦ elim (Option-cases (alloc_first rest size)) [
    | inl none_left ↦ ground arith
    | inr ((at', rest'), found) ↦
        subst (λ (r : ℕ × FreeList). Takes size (h ∷ rest) r.0 r.1) (ground arith)
          (later h (ground arith)
            (alloc_first-Takes (h.addr + h.size) size rest at' rest' f.1 found))
  ]
]

FitsFrom-le : (lo lo' : ℕ) (l : FreeList) → lo ≤ lo' → FitsFrom lo' l → FitsFrom lo l
FitsFrom-le lo lo' [] p f = tt
FitsFrom-le lo lo' (n ∷ rest) p f = ground arith

IsApart-FitsFrom :
    (block size lo : ℕ) (l : FreeList) → block + size ≤ lo → FitsFrom lo l → IsApart block size l
IsApart-FitsFrom block size lo [] p f = tt
IsApart-FitsFrom block size lo (n ∷ rest) p f =
    (inl (omega arith), IsApart-FitsFrom block size (n.addr + n.size) rest (omega arith) f.1)

module _ (size : ℕ) (some_units : 0 < size) (whole_units : size % node_align ≡ 0) where
  Takes-lt :
      (lo : ℕ) {l : FreeList} {at : ℕ} {l' : FreeList}
      → Takes size l at l'
      → FitsFrom lo l
      → lo < at
  Takes-lt lo (exact h rest e) f = omega arith
  Takes-lt lo (front h rest e) f = omega arith
  Takes-lt lo (later h e t) f = omega (arith, Takes-lt (h.addr + h.size) t f.1)

  Takes-FitsFrom :
      (lo : ℕ) {l : FreeList} {at : ℕ} {l' : FreeList}
      → Takes size l at l'
      → FitsFrom lo l
      → FitsFrom lo l'
  Takes-FitsFrom lo (exact h rest e) f = FitsFrom-le lo (h.addr + h.size) rest (omega arith) f.1
  Takes-FitsFrom lo (front h rest e) f = ground arith
  Takes-FitsFrom lo (later h e t) f = (f.0, Takes-FitsFrom (h.addr + h.size) t f.1)

  covers-Takes :
      (lo : ℕ) {l : FreeList} {at : ℕ} {l' : FreeList} (a : ℕ)
      → Takes size l at l'
      → FitsFrom lo l
      → covers l a ≡ in_block at size a || covers l' a
  covers-Takes lo a (exact h rest e) f = ground arith
  covers-Takes lo a (front h rest e) f = ground arith
  covers-Takes lo a (later h e t) f = ground (arith, covers-Takes (h.addr + h.size) a t f.1)

  -- Giving back what was taken merges it into the list as it was.
  insert_node-Takes :
      (lo : ℕ) (h : Node) {l : FreeList} {at : ℕ} {l' : FreeList}
      → Takes size l at l'
      → FitsFrom lo (h ∷ l)
      → insert_node at h size l' ≡ h ∷ l
  unfolding insert_node
  insert_node-Takes lo h (exact g [] e) f = ground arith
  insert_node-Takes lo h (exact g (m ∷ rest) e) f = ground arith
  insert_node-Takes lo h (front g rest e) f = ground arith
  insert_node-Takes lo h (later g e t) f =
      ground
        (arith, insert_node-Takes (h.addr + h.size) g t f.1, Takes-lt (g.addr + g.size) t f.1.1)

  IsApart-Takes :
      (lo : ℕ) {l : FreeList} {at : ℕ} {l' : FreeList}
      → Takes size l at l'
      → FitsFrom lo l
      → IsApart at size l'
  IsApart-Takes lo (exact h rest e) f =
      IsApart-FitsFrom h.addr size (h.addr + h.size) rest (omega arith) f.1
  IsApart-Takes lo (front h rest e) f =
      (inl (omega arith), IsApart-FitsFrom h.addr size (h.addr + h.size) rest (omega arith) f.1)
  IsApart-Takes lo (later h e t) f =
      (inr (omega (arith, Takes-lt (h.addr + h.size) t f.1)), IsApart-Takes (h.addr + h.size) t f.1)

dealloc_space-Takes :
    (size : ℕ) {l : FreeList} {at : ℕ} {l' : FreeList}
    → 0 < round_size size
    → round_size size % node_align ≡ 0
    → Takes (round_size size) l at l'
    → IsValid l
    → dealloc_space at l' size ≡ l
unfolding dealloc_space
dealloc_space-Takes size p w (exact h [] e) v = ground arith
dealloc_space-Takes size p w (exact h (m ∷ rest) e) v = ground arith
dealloc_space-Takes size p w (front h rest e) v = ground arith
dealloc_space-Takes size p w (later h e t) v = ground (
  arith,
  Takes-lt (round_size size) p w (h.addr + h.size) t v.1,
  insert_node-Takes (round_size size) p w 0 h t v,
)

-- For a size from 1 up whose rounding stays below 2 ^ 64: an allocation from a valid list that succeeds
-- returns space that was free, leaves a valid list, and the bytes that were free are those of the space
-- and those still free, with none in both.
pub alloc_space_lem :
    (l : FreeList) (size : ℕ) (at : ℕ) (l' : FreeList)
    → 0 < size
    → size + 15 < 2 ^ 64
    → IsValid l
    → alloc_space l size ≡ some (at, l')
    → IsValid l'
      × IsApart at (round_size size) l'
      × ((a : ℕ) → covers l a ≡ in_block at (round_size size) a || covers l' a)
unfolding alloc_space
alloc_space_lem l size at l' p s v e =
    let n = round_size size in
    let (low, high, whole) = round_size_bounds size s in
    let some_units : 0 < n = omega arith in
    let t = alloc_first-Takes 0 n l at l' v e in
    (
      Takes-FitsFrom n some_units whole 0 t v,
      IsApart-Takes n some_units whole 0 t v,
      λ a. covers-Takes n some_units whole 0 a t v,
    )

-- For a size from 1 up whose rounding stays below 2 ^ 64: giving an allocation from a valid list back
-- restores the list, node for node.
pub dealloc_space-alloc_space :
    (l : FreeList) (size : ℕ) (at : ℕ) (l' : FreeList)
    → 0 < size
    → size + 15 < 2 ^ 64
    → IsValid l
    → alloc_space l size ≡ some (at, l')
    → dealloc_space at l' size ≡ l
unfolding alloc_space
dealloc_space-alloc_space l size at l' p s v e =
    let (low, high, whole) = round_size_bounds size s in
    dealloc_space-Takes size (omega arith) whole (alloc_first-Takes 0 (round_size size) l at l' v e)
      v

round_size_zero :
    (size : ℕ) → size < 2 ^ 64 → (size ≡ 0) ⊎ (2 ^ 64 ≤ size + 15) → round_size size ≡ 0
unfolding round_size
round_size_zero size below wraps = ground (arith, wraps)

-- A size of 0, or one from 2 ^ 64 - 15 up, which the rounding takes to 0, is given from a valid list that
-- has a node: the address is that of the first node, the list stays as it was, so the byte there is
-- still free; and giving it back, where that node is the only one, makes the node's size 0.
pub alloc_space_nothing :
    (n : Node) (rest : FreeList) (size : ℕ)
    → IsValid (n ∷ rest)
    → size < 2 ^ 64
    → (size ≡ 0) ⊎ (2 ^ 64 ≤ size + 15)
    → (alloc_space (n ∷ rest) size ≡ some (n.addr, n ∷ rest))
      × (covers (n ∷ rest) n.addr ≡ true)
      × (dealloc_space n.addr (n ∷ []) size ≡ record { addr = n.addr; size = 0 } ∷ [])
unfolding alloc_space dealloc_space
alloc_space_nothing n rest size v below wraps =
    let zero_units : round_size size ≡ 0 = round_size_zero size below wraps in
    (ground (arith, zero_units, v.0), ground (arith, v.0), ground (arith, zero_units, v.0))
