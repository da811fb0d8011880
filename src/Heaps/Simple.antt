-- ===== src/Heaps/Simple.antt =====
-- src/sassimpleheap.cpp: a heap in one block, whose free space is the list of src/freenode.c.
use sphde.Base.{
  sub64, add64, ℕ, Bool, false, ◌&&◌, ltb, leb, ◌==◌, if◌then◌else◌, Option, none, some, [], ◌∷◌,
}
use sphde.FreeNode.{FreeList, free_space_total, dealloc_space, alloc_space}
use sphde.Heaps.Block.{
  Block, heap_offset, simple_heap, check_type, check_subtype, init_block, Code, success, type_error,
  range_error,
}

-- `SASSimpleHeapInit`, NULL at NULL
unfoldable pub init : ℕ → ℕ → ℕ → Option Block
unfolding init_block
init addr t size =
    if addr == 0 then none else some (init_block addr t size (some (add64 addr heap_offset)))

-- `SASSimpleHeapCreate`, where `SASBlockAlloc` gives an address or 0
unfoldable pub create : (ℕ → ℕ) → ℕ → Option Block
unfolding init
create block_alloc size = init (block_alloc size) simple_heap size

-- `headerBlock->blockSize - heap_offset`
unfoldable pub heap_size : Block → ℕ
heap_size h = sub64 h.size heap_offset

-- `SASSimpleHeapAllocNoLock` and `SASSimpleHeapAlloc`
unfoldable pub take_space : Block → Option (ℕ × FreeList) → Option ℕ × Block
take_space h none = (none, h)
take_space h (some (at, rest)) = (some at, record h { free_space = rest })

unfoldable pub alloc_no_lock : Block → ℕ → Option ℕ × Block
unfolding check_type heap_size alloc_space take_space
alloc_no_lock h size =
    if check_type h simple_heap
    then if ltb size (heap_size h) then take_space h (alloc_space h.free_space size) else (none, h)
    else (none, h)

unfoldable pub alloc : Block → ℕ → Option ℕ × Block
unfolding check_type alloc_no_lock
alloc h size = if check_type h simple_heap then alloc_no_lock h size else (none, h)

-- `SASSimpleHeapFreeNoLock` and `SASSimpleHeapFree`. Before the tests the block is written to,
-- wherever it lies.
unfoldable pub free_no_lock : Block → ℕ → ℕ → Code × Block
unfolding check_type heap_size dealloc_space
free_no_lock h block size =
    if check_type h simple_heap
    then if ltb size (heap_size h) && leb (add64 h.addr heap_offset) block
      then (success, record h { free_space = dealloc_space block h.free_space size })
      else (range_error, h)
    else (type_error, h)

unfoldable pub free : Block → ℕ → ℕ → Code × Block
unfolding check_type free_no_lock
free h block size = if check_type h simple_heap then free_no_lock h block size else (type_error, h)

-- `SASSimpleHeapNearFind`, `SASSimpleHeapNearAllocNoLock` and `SASSimpleHeapNearDeallocNoLock` on
-- what `SASFindHeader` found
unfoldable pub near_find : Option Block → Option Block
unfolding check_type
near_find none = none
near_find (some h) = if check_type h simple_heap then some h else none

unfoldable pub near_alloc_no_lock : Option Block → ℕ → Option ℕ × Option Block
unfolding check_type heap_size alloc_space take_space
near_alloc_no_lock none size = (none, none)
near_alloc_no_lock (some h) size =
    let (at, h') =
      if check_type h simple_heap
      then if ltb size (heap_size h)
        then take_space h (alloc_space h.free_space size)
        else (none, h)
      else (none, h) in
    (at, some h')

unfoldable pub near_dealloc_no_lock : Option Block → ℕ → ℕ → Option Block
unfolding check_type heap_size dealloc_space
near_dealloc_no_lock none near size = none
near_dealloc_no_lock (some h) near size =
    if check_type h simple_heap
    then if ltb size (heap_size h) && leb (add64 h.addr heap_offset) near
      then some (record h { free_space = dealloc_space near h.free_space size })
      else some h
    else some h

-- `SASSimpleHeapFreeSpaceNoLock` and `SASSimpleHeapFreeSpace`
unfoldable pub total_of : FreeList → ℕ
unfolding free_space_total
total_of [] = 0
total_of (n ∷ rest) = free_space_total n rest

unfoldable pub free_space_no_lock : Block → ℕ
unfolding check_type total_of
free_space_no_lock h = if check_type h simple_heap then total_of h.free_space else 0

unfoldable pub free_space : Block → ℕ
unfolding check_type free_space_no_lock
free_space h = if check_type h simple_heap then free_space_no_lock h else 0

-- `SASSimpleHeapEmptyNoLock` and `SASSimpleHeapEmpty`
unfoldable pub empty_no_lock : Block → Bool
unfolding check_type free_space_no_lock heap_size
empty_no_lock h = if check_type h simple_heap then free_space_no_lock h == heap_size h else false

unfoldable pub empty : Block → Bool
unfolding check_type free_space_no_lock heap_size
empty h = if check_type h simple_heap then free_space_no_lock h == heap_size h else false

-- `SASSimpleHeapDestroyNoLock` and `SASSimpleHeapDestroy`: the address and the size that
-- `SASBlockDealloc` is given, where it is called
unfoldable pub destroy_no_lock : Block → Code × Option (ℕ × ℕ)
unfolding check_subtype
destroy_no_lock h =
    if check_subtype h simple_heap then (success, some (h.addr, h.size)) else (type_error, none)

unfoldable pub destroy : Block → Code × Option (ℕ × ℕ)
unfolding check_subtype destroy_no_lock
destroy h = if check_subtype h simple_heap then destroy_no_lock h else (type_error, none)
