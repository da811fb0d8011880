-- ===== src/Heaps/SimpleUse.antt =====
-- The heap of src/sassimpleheap.cpp with its clients: what is allocated and not given back yet.
use mathlib.Core.Path.{subst}
use sphde.Base.{
  ℕ, ◌+◌, ◌-◌, ◌%◌, ◌^◌, ◌≤◌, ◌<◌, ◌≡◌, ◌↔◌, inl, inr, refl, sym, ap, ◌∙◌, Bool, true, false, ◌||◌,
  if◌then◌else◌, some, List, [], ◌∷◌, arith,
}
use sphde.FreeNode.{FreeList, round_size}
use sphde.FreeNode.Shape.{FitsFrom, IsApart, round_size_bounds}
use sphde.FreeNode.Cover.{in_block, covers}
use sphde.Heaps.Block.{Block, heap_offset, simple_heap, success}
use sphde.Heaps.Simple.{init, alloc, free}
use sphde.Heaps.SimpleLaws.{in_heap, IsHeap, alloc-small, alloc_lem, free_lem, init_lem}

-- A block in use, as its address and the size that was asked for.
pub record Use : Type 0 where
  pub at : ℕ
  pub size : ℕ

-- The list without one of its elements.
pub data Without : Use → List Use → List Use → Type 0 where
  here : (u : Use) (us : List Use) → Without u (u ∷ us) us
  there : (u v : Use) (us vs : List Use) → Without u us vs → Without u (v ∷ us) (v ∷ vs)

-- The clients' steps: an allocation, of a byte or more, that succeeds, and the free of a block in use with
-- the size that it was allocated with.
pub data Step : Block × List Use → Block × List Use → Type 0 where
  allocate :
      (h h' : Block) (us : List Use) (at size : ℕ)
      → 0 < size
      → alloc h size ≡ (some at, h')
      → Step (h, us) (h', record { at = at; size = size } ∷ us)
  release :
      (h : Block) (us us' : List Use) (u : Use)
      → Without u us us'
      → Step (h, us) ((free h u.at u.size).1, us')

pub data Reach (h : Block) : Block × List Use → Type 0 where
  start : Reach h (h, [])
  onward : (s s' : Block × List Use) → Reach h s → Step s s' → Reach h s'

abbrev one_if : Bool → ℕ
one_if b = if b then 1 else 0

-- How many of the blocks in use have the byte.
unfoldable pub uses : List Use → ℕ → ℕ
uses [] a = 0
uses (u ∷ us) a = (if in_block u.at (round_size u.size) a then 1 else 0) + uses us a

-- Each byte of the heap is free or in one block that is in use, and no other byte is.
abbrev pub Shared : Block → List Use → Type 0
Shared h us =
    (a : ℕ) → (if covers h.free_space a then 1 else 0) + uses us a ≡ (if in_heap h a then 1 else 0)

-- What an allocation gave: a block of whole units in the heap.
pub record IsUse (h : Block) (u : Use) : Type 0 where
  pub some_bytes : 0 < u.size
  pub fits : u.size + 15 < 2 ^ 64
  pub small : u.size < h.size - heap_offset
  pub above : h.addr + heap_offset ≤ u.at
  pub below : u.at + round_size u.size ≤ h.addr + h.size

abbrev AllUse : Block → List Use → Type 0
AllUse h [] = Unit
AllUse h (u ∷ us) = IsUse h u × AllUse h us

uses-Without :
    (a : ℕ) {u : Use} {us us' : List Use}
    → Without u us us'
    → uses us a ≡ (if in_block u.at (round_size u.size) a then 1 else 0) + uses us' a
unfolding uses
uses-Without a (here u us) = refl
uses-Without a (there u v us vs w) = omega (arith, uses-Without a w)

Use-Without :
    (h : Block) {u : Use} {us us' : List Use}
    → Without u us us'
    → AllUse h us
    → IsUse h u × AllUse h us'
Use-Without h (here u us) all = all
Use-Without h (there u v us vs w) (v_use, all) =
    let (u_use, rest) = Use-Without h w all in (u_use, (v_use, rest))

-- Bytes of which none is free overlap no free node.
Apart-covers :
    (lo at size : ℕ) (l : FreeList)
    → 0 < size
    → ((a : ℕ) → in_block at size a ≡ true → covers l a ≡ false)
    → FitsFrom lo l
    → IsApart at size l
Apart-covers lo at size [] some_bytes apart fits = tt
Apart-covers lo at size (n ∷ rest) some_bytes apart (own, fits) = (
  ground (arith, own.nonempty, some_bytes, apart at, apart n.addr),
  Apart-covers (n.addr + n.size) at size rest some_bytes (λ a c. ground (arith, apart a c)) fits,
)

covers-Apart :
    (at size a : ℕ) (l : FreeList)
    → IsApart at size l
    → in_block at size a ≡ true
    → covers l a ≡ false
covers-Apart at size a [] apart c = refl
covers-Apart at size a (n ∷ rest) (own, apart) c =
    ground (arith, own, c, covers-Apart at size a rest apart c)

-- A byte that moves between the free ones and a block.
moved :
    (whole part block : Bool) (others : ℕ) (total : Bool)
    → whole ≡ block || part
    → (block ≡ true → part ≡ false)
    → ((if whole then 1 else 0) + others ≡ (if total then 1 else 0))
      ↔ ((if part then 1 else 0) + ((if block then 1 else 0) + others) ≡ (if total then 1 else 0))
moved whole part block others total e apart = ground (arith, e, apart)

-- A byte of a block is not free, where each is only once in either.
used_not_free :
    (is_free block total : Bool) (others : ℕ)
    → (if is_free then 1 else 0) + ((if block then 1 else 0) + others) ≡ (if total then 1 else 0)
    → block ≡ true
    → is_free ≡ false
used_not_free is_free block total others e b = ground (arith, e, b)

AllUse-with :
    (h : Block) (rest : FreeList) (us : List Use)
    → AllUse h us
    → AllUse (record h { free_space = rest }) us
AllUse-with h rest [] all = tt
AllUse-with h rest (u ∷ us) (u_use, all) = (
  record {
    some_bytes = u_use.some_bytes;
    fits = u_use.fits;
    small = u_use.small;
    above = u_use.above;
    below = u_use.below;
  },
  AllUse-with h rest us all,
)

-- What holds of a heap with its clients.
abbrev pub Whole : Block × List Use → Type 0
Whole (h, us) = IsHeap h × AllUse h us × Shared h us

allocate-Whole :
    (h h' : Block) (us : List Use) (at size : ℕ)
    → 0 < size
    → alloc h size ≡ (some at, h')
    → Whole (h, us)
    → Whole (h', record { at = at; size = size } ∷ us)
unfolding uses
allocate-Whole h h' us at size some_bytes e (heap, all, shared) =
    let fits : size + 15 < 2 ^ 64 =
      omega (arith, alloc-small h heap size at h' e, heap.in_memory) in
    elim (alloc_lem h heap size some_bytes fits) [
      | inl nothing ↦ absurd (ground (arith, ap (λ r. r.0) (sym nothing ∙ e)))
      | inr (at', rest, e', heap', small, above, below, apart, covered) ↦
          let gives : (some at', record h { free_space = rest }) ≡ (some at, h') = sym e' ∙ e in
          let some_at : some at' ≡ some at = ap (λ r. r.0) gives in
          let there : at' ≡ at = cc some_at in
          let left : record h { free_space = rest } ≡ h' = ap (λ r. r.1) gives in
          subst (λ g. Whole (g, record { at = at; size = size } ∷ us)) left
            (subst
              (λ p. Whole (record h { free_space = rest }, record { at = p; size = size } ∷ us))
              there
              (
                heap',
                (
                  record {
                    some_bytes = some_bytes;
                    fits = fits;
                    small = small;
                    above = above;
                    below = below;
                  },
                  AllUse-with h rest us all,
                ),
                λ a.
                    (moved (covers h.free_space a) (covers rest a)
                        (in_block at' (round_size size) a) (uses us a) (in_heap h a) (covered a)
                        (covers-Apart at' (round_size size) a rest apart)).0
                      (shared a),
              ))
    ]

release-Whole :
    (h : Block) (us us' : List Use) (u : Use)
    → Without u us us'
    → Whole (h, us)
    → ((free h u.at u.size).0 ≡ success) × Whole ((free h u.at u.size).1, us')
release-Whole h us us' u w (heap, all, shared) =
    let (used, all') = Use-Without h w all in
    let (low, high, whole) = round_size_bounds u.size used.fits in
    let block = in_block u.at (round_size u.size) in
    let counted = λ (a : ℕ).
      ap (λ n. (if covers h.free_space a then 1 else 0) + n) (sym (uses-Without a w)) ∙ shared a in
    let not_free : (a : ℕ) → block a ≡ true → covers h.free_space a ≡ false =
      λ a. used_not_free (covers h.free_space a) (block a) (in_heap h a) (uses us' a) (counted a) in
    let apart =
      Apart-covers 0 u.at (round_size u.size) h.free_space (omega (arith, used.some_bytes, low))
        not_free heap.valid in
    let (rest, e, heap', covered) =
      free_lem h heap u.at u.size used.small
        (record {
          not_null = omega (arith, used.above);
          some_units = omega (arith, used.some_bytes, low);
          whole_units = whole;
          in_memory = omega (arith, used.below, heap.in_memory);
        })
        used.above used.below apart in
    subst (λ r. (r.0 ≡ success) × Whole (r.1, us')) (sym e)
      (
        refl,
        (
          heap',
          AllUse-with h rest us' all',
          λ a.
              (moved (covers rest a) (covers h.free_space a) (block a) (uses us' a) (in_heap h a)
                  (covered a) (not_free a)).1
                (counted a),
        ),
      )

module _ (h : Block) (heap : IsHeap h)
    (all_free : (a : ℕ) → covers h.free_space a ≡ in_heap h a) where
  Reach-Whole : {s : Block × List Use} → Reach h s → Whole s
  unfolding uses
  Reach-Whole start = (heap, tt, λ a. ground (arith, all_free a))
  Reach-Whole (onward r s reached (allocate g g' us at size some_bytes e)) =
      allocate-Whole g g' us at size some_bytes e (Reach-Whole reached)
  Reach-Whole (onward r s reached (release g us us' u w)) =
      (release-Whole g us us' u w (Reach-Whole reached)).1

-- From a heap on that was made in memory, of whole units with room behind its header, whatever blocks of
-- 1 byte or more its clients allocate and give back with their sizes, each byte of the heap is free or in exactly one block in use, no other byte is
-- either, and the free of a block in use succeeds.
pub reach_lem :
    (addr size : ℕ) (h : Block) (s : Block × List Use)
    → 0 < addr
    → addr + size < 2 ^ 64
    → heap_offset < size
    → size % 16 ≡ 0
    → init addr simple_heap size ≡ some h
    → Reach h s
    → Shared s.0 s.1
      × ((u : Use) (us : List Use) → Without u s.1 us → (free s.0 u.at u.size).0 ≡ success)
reach_lem addr size h s some_addr in_memory room units e reached =
    let (h', e', heap, _, _, all_free) = init_lem addr size some_addr in_memory room units in
    let both : some h' ≡ some h = sym e' ∙ e in
    let same : h' ≡ h = cc both in
    let whole =
      Reach-Whole h (subst IsHeap same heap)
        (subst (λ g. (a : ℕ) → covers g.free_space a ≡ in_heap g a) same all_free) reached in
    (whole.2, λ u us w. (release-Whole s.0 s.1 us u w whole).0)
