-- ===== src/Heaps/SimpleLaws.antt =====
-- What allocation and freeing do to a heap of src/sassimpleheap.cpp.
use mathlib.Core.Path.{subst}
use sphde.Base.{
  sub64, add64, ℕ, ◌+◌, ◌-◌, ◌%◌, ◌^◌, ◌≤◌, ◌<◌, ◌≡◌, ◌⊎◌, inl, inr, refl, sym, ap, ◌∙◌, Bool, true,
  false, ◌&&◌, ◌||◌, ◌==◌, ◌∷◌, [], ltb, leb, if◌then◌else◌, none, some, arith, dec_lt,
  Option-cases,
}
use sphde.FreeNode
use sphde.FreeNode.{FreeList, free_space_total, sum_rest, round_size, dealloc_space, alloc_space}
use sphde.FreeNode.Shape.{IsValid, IsApart, IsBlock, round_size_bounds, dealloc_space-IsValid}
use sphde.FreeNode.Cover.{in_block, covers, covers-dealloc_space}
use sphde.FreeNode.Alloc.{alloc_space_lem, dealloc_space-alloc_space}
use sphde.Heaps.Block.{
  Block, heap_offset, simple_heap, signature1, signature2, check_type, check_sig, type_mask,
  type_check_mask, init_block, success, range_error,
}
use sphde.Heaps.Simple.{
  init, heap_size, take_space, alloc_no_lock, alloc, free_no_lock, free, total_of,
  free_space_no_lock, free_space, empty,
}

-- The byte lies in the heap's space, behind the header.
abbrev pub in_heap : Block → ℕ → Bool
in_heap h a = leb (h.addr + heap_offset) a && ltb a (h.addr + h.size)

-- A heap of whole units in memory, of the type, whose free list is valid and has only bytes of the heap.
pub record IsHeap (h : Block) : Type 0 where
  pub is_type : check_type h simple_heap ≡ true
  pub in_memory : h.addr + h.size < 2 ^ 64
  pub room : heap_offset < h.size
  pub valid : IsValid h.free_space
  pub inside : (a : ℕ) → covers h.free_space a ≡ true → in_heap h a ≡ true

module _ (h : Block) (heap : IsHeap h) where
  heap_size-IsHeap : heap_size h ≡ h.size - heap_offset
  unfolding heap_size
  heap_size-IsHeap = omega (arith, heap.room, heap.in_memory)

  start-IsHeap : add64 h.addr heap_offset ≡ h.addr + heap_offset
  start-IsHeap = omega (arith, heap.room, heap.in_memory)

  alloc-IsHeap :
      (n : ℕ)
      → alloc h n ≡ (
          if ltb n (h.size - heap_offset)
          then take_space h (alloc_space h.free_space n)
          else (none, h))
  unfolding alloc alloc_no_lock
  alloc-IsHeap n = rw heap.is_type (rw heap_size-IsHeap refl)

  -- A size that is given is below the heap's.
  pub alloc-small : (n at : ℕ) (h' : Block) → alloc h n ≡ (some at, h') → n < h.size - heap_offset
  alloc-small n at h' e = ground (arith, alloc-IsHeap n, e)

  free-IsHeap :
      (block n : ℕ)
      → free h block n ≡ (
          if ltb n (h.size - heap_offset) && leb (h.addr + heap_offset) block
          then (success, record h { free_space = dealloc_space block h.free_space n })
          else (range_error, h))
  unfolding free free_no_lock
  free-IsHeap block n = rw heap.is_type (rw heap_size-IsHeap (rw start-IsHeap refl))

  -- A heap with another free list of its bytes.
  pub with_free_space-IsHeap :
      (rest : FreeList)
      → IsValid rest
      → ((a : ℕ) → covers rest a ≡ true → in_heap h a ≡ true)
      → IsHeap (record h { free_space = rest })
  unfolding check_type
  with_free_space-IsHeap rest valid inside = record {
    is_type = heap.is_type;
    in_memory = heap.in_memory;
    room = heap.room;
    valid = valid;
    inside = inside;
  }

  -- Bytes that are free stand in the heap, the first and the last of a block too.
  block_inside :
      (at size : ℕ)
      → 0 < size
      → ((a : ℕ) → in_block at size a ≡ true → in_heap h a ≡ true)
      → (h.addr + heap_offset ≤ at) × (at + size ≤ h.addr + h.size)
  block_inside at size some_bytes inside =
      let first : in_heap h at ≡ true = inside at (ground (arith, some_bytes)) in
      let last : in_heap h (at + size - 1) ≡ true =
        inside (at + size - 1) (ground (arith, some_bytes)) in
      ground (arith, first, last, some_bytes)

  -- An allocation from a heap of a size above 0 gives NULL and leaves the heap, or else gives space of the
  -- heap that was free and is not any more; nothing else changes.
  pub alloc_lem :
      (n : ℕ)
      → 0 < n
      → n + 15 < 2 ^ 64
      → (alloc h n ≡ (none, h))
        ⊎ ((at : ℕ) × (rest : FreeList) × (alloc h n ≡ (some at, record h { free_space = rest }))
            × IsHeap (record h { free_space = rest })
            × (n < h.size - heap_offset)
            × (h.addr + heap_offset ≤ at)
            × (at + round_size n ≤ h.addr + h.size)
            × IsApart at (round_size n) rest
            × ((a : ℕ) → covers h.free_space a ≡ in_block at (round_size n) a || covers rest a))
  unfolding take_space
  alloc_lem n some_bytes fits = elim (dec_lt n (h.size - heap_offset)) [
    | no large ↦
        let test : ltb n (h.size - heap_offset) ≡ false = ground (arith, large) in
        inl (alloc-IsHeap n ∙ rw test refl)
    | yes small ↦
        let test : ltb n (h.size - heap_offset) ≡ true = ground (arith, small) in
        elim (Option-cases (alloc_space h.free_space n)) [
          | inl nothing ↦ inl (alloc-IsHeap n ∙ rw test (rw nothing refl))
          | inr ((at, rest), e) ↦
              let (valid, apart, same) =
                alloc_space_lem h.free_space n at rest some_bytes fits heap.valid e in
              let (low, high, whole) = round_size_bounds n fits in
              let free_before : (a : ℕ)
                  → (in_block at (round_size n) a || covers rest a) ≡ true
                  → in_heap h a ≡ true =
                λ a c. heap.inside a (same a ∙ c) in
              let (above, below) =
                block_inside at (round_size n) (omega (arith, low, some_bytes))
                  (λ a c. free_before a (rw c refl)) in
              inr (
                at,
                rest,
                alloc-IsHeap n ∙ rw test (rw e refl),
                with_free_space-IsHeap rest valid (λ a c. free_before a (ground (arith, c))),
                small,
                above,
                below,
                apart,
                same,
              )
        ]
  ]

  -- Giving back a block of the heap that overlaps no free node, of a size that an allocation can have,
  -- succeeds and makes exactly its bytes free beside those that were.
  pub free_lem :
      (block n : ℕ)
      → n < h.size - heap_offset
      → IsBlock block (round_size n)
      → h.addr + heap_offset ≤ block
      → block + round_size n ≤ h.addr + h.size
      → IsApart block (round_size n) h.free_space
      → (rest : FreeList) × (free h block n ≡ (success, record h { free_space = rest }))
        × IsHeap (record h { free_space = rest })
        × ((a : ℕ) → covers rest a ≡ in_block block (round_size n) a || covers h.free_space a)
  free_lem block n small whole above below apart =
      let rest = dealloc_space block h.free_space n in
      let same = λ (a : ℕ). covers-dealloc_space block n h.free_space a whole heap.valid apart in
      let test : (ltb n (h.size - heap_offset) && leb (h.addr + heap_offset) block) ≡ true =
        ground (arith, small, above) in
      (
        rest,
        free-IsHeap block n ∙ rw test refl,
        with_free_space-IsHeap rest
            (dealloc_space-IsValid block n h.free_space whole heap.valid apart)
            (λ a c. ground (arith, c, same a, above, below, heap.inside a)),
        same,
      )

  alloc-some :
      (n at : ℕ) (h' : Block)
      → alloc h n ≡ (some at, h')
      → (rest : FreeList) × (alloc_space h.free_space n ≡ some (at, rest))
        × (record h { free_space = rest } ≡ h')
  unfolding take_space
  alloc-some n at h' e = elim (dec_lt n (h.size - heap_offset)) [
    | no large ↦
        let test : ltb n (h.size - heap_offset) ≡ false = ground (arith, large) in
        let gives : (none, h) ≡ (some at, h') = sym (alloc-IsHeap n ∙ rw test refl) ∙ e in
        absurd (ground (arith, ap (λ r. r.0) gives))
    | yes small ↦
        let test : ltb n (h.size - heap_offset) ≡ true = ground (arith, small) in
        elim (Option-cases (alloc_space h.free_space n)) [
          | inl nothing ↦
              let gives : (none, h) ≡ (some at, h') =
                sym (alloc-IsHeap n ∙ rw test (rw nothing refl)) ∙ e in
              absurd (ground (arith, ap (λ r. r.0) gives))
          | inr ((at', rest), e') ↦
              let gives : (some at', record h { free_space = rest }) ≡ (some at, h') =
                sym (alloc-IsHeap n ∙ rw test (rw e' refl)) ∙ e in
              let some_at : some at' ≡ some at = ap (λ r. r.0) gives in
              let same : at' ≡ at = cc some_at in
              (rest, e' ∙ ap (λ x. some (x, rest)) same, ap (λ r. r.1) gives)
        ]
  ]

-- Giving back an allocation of a size above 0 from a heap succeeds and restores the heap.
pub free-alloc :
    (h : Block) (n at : ℕ) (h' : Block)
    → IsHeap h
    → 0 < n
    → n + 15 < 2 ^ 64
    → alloc h n ≡ (some at, h')
    → free h' at n ≡ (success, h)
free-alloc h n at h' heap some_bytes fits e =
    let (rest, e', same) = alloc-some h heap n at h' e in
    elim (alloc_lem h heap n some_bytes fits) [
      | inl nothing ↦ absurd (ground (arith, ap (λ r. r.0) (sym nothing ∙ e)))
      | inr (at', rest', e'', heap', small, above, below, apart, covered) ↦
          let gives : (some at', record h { free_space = rest' }) ≡ (some at, h') = sym e'' ∙ e in
          let some_at : some at' ≡ some at = ap (λ r. r.0) gives in
          let here : at' ≡ at = cc some_at in
          let taken : record h { free_space = rest' } ≡ record h { free_space = rest } =
            ap (λ r. r.1) gives ∙ sym same in
          let test : (ltb n (h.size - heap_offset) && leb (h.addr + heap_offset) at) ≡ true =
            ground (arith, small, above, here) in
          ap (λ g. free g at n) (sym same)
          ∙ free-IsHeap (record h { free_space = rest }) (subst IsHeap taken heap') at n
          ∙ rw test (
              ap (λ l. (success, record h { free_space = l }))
                (dealloc_space-alloc_space h.free_space n at rest some_bytes fits heap.valid e'))
    ]

module _ (addr size : ℕ) (some_addr : 0 < addr) (in_memory : addr + size < 2 ^ 64)
    (room : heap_offset < size) (whole : size % 16 ≡ 0) where
  abbrev fresh : Block
  fresh = record {
    addr = addr;
    sig1 = signature1;
    block_type = simple_heap;
    sig2 = signature2;
    size = size;
    free_space = record { addr = addr + heap_offset; size = size - heap_offset } ∷ [];
  }

  init-fresh : init addr simple_heap size ≡ some fresh
  unfolding init init_block FreeNode.init
  init-fresh =
      let test : (addr == 0) ≡ false = ground (arith, some_addr) in
      let start : add64 addr heap_offset ≡ addr + heap_offset = omega (arith, room, in_memory) in
      let rest : sub64 size (sub64 (addr + heap_offset) addr) ≡ size - heap_offset =
        omega (arith, room, in_memory) in
      rw test (rw start (rw rest refl))

  fresh-IsHeap : IsHeap fresh
  unfolding check_type check_sig type_mask type_check_mask
  fresh-IsHeap = record {
    is_type = refl;
    in_memory = in_memory;
    room = room;
    valid = (
      record {
        above = omega (arith, room);
        nonempty = omega (arith, room);
        whole = omega (arith, whole, room);
        in_space = omega (arith, room, in_memory);
      },
      tt,
    );
    inside = λ a c. ground (arith, c, room);
  }

  fresh-free_space : free_space fresh ≡ size - heap_offset
  unfolding free_space free_space_no_lock total_of free_space_total sum_rest
  fresh-free_space = refl

  fresh-empty : empty fresh ≡ true
  unfolding empty free_space_no_lock total_of free_space_total sum_rest
  fresh-empty = ground (arith, heap_size-IsHeap fresh fresh-IsHeap)

  -- A heap made in memory at an address other than NULL, of whole units with room behind the header, is a
  -- heap, says that it is empty, has all of that room as free space, and each byte of it is free.
  pub init_lem :
      (h : Block) × (init addr simple_heap size ≡ some h)
      × IsHeap h
      × (empty h ≡ true)
      × (free_space h ≡ size - heap_offset)
      × ((a : ℕ) → covers h.free_space a ≡ in_heap h a)
  init_lem =
      (fresh, init-fresh, fresh-IsHeap, fresh-empty, fresh-free_space, λ a. ground (arith, room))
