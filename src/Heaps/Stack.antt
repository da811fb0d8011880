-- ===== src/Heaps/Stack.antt =====
-- src/sassimplestack.cpp: a stack in one block, on a 64-bit platform.
--
-- `align_mask` is ~(align - 1), with the alignment in its place here.
use sphde.Base.{
  sub64, add64, ℕ, ◌+◌, ◌-◌, ◌*◌, ◌/◌, ◌%◌, ◌^◌, Bool, ◌&&◌, leb, ◌==◌, if◌then◌else◌, Option, none,
  some,
}
use sphde.FreeNode
use sphde.FreeNode.{FreeList}
use sphde.Heaps.Block.{
  Block, simple_stack, check_type, check_subtype, init_block, Code, success, type_error,
  range_error, align_error,
}

-- `SASSimpleStackHeader`, whose size is 128
pub record Stack : Type 0 where
  pub block : Block
  pub next_stack : ℕ
  pub start_stack : ℕ
  pub end_stack : ℕ
  pub align : ℕ
  pub header_free_space : FreeList

-- `DEFAULT_PAGE`
abbrev pub default_page : ℕ
default_page = 4096

-- `SASSimpleStackInitInternal` and `SASSimpleStackInit`
unfoldable pub init_internal : ℕ → ℕ → ℕ → Stack
unfolding init_block FreeNode.init
init_internal addr t size = record {
  block = init_block addr t size none;
  next_stack = add64 addr default_page;
  start_stack = add64 addr default_page;
  end_stack = add64 addr size;
  align = 16;
  header_free_space = FreeNode.init (add64 addr 128) (default_page - 128);
}

unfoldable pub init : ℕ → ℕ → Stack
unfolding init_internal
init addr size = init_internal addr simple_stack size

-- `SASSimpleStackCreate`, where `SASBlockAlloc` gives an address or 0
unfoldable pub create : (ℕ → ℕ) → ℕ → Option Stack
unfolding init
create block_alloc size =
    let addr = block_alloc size in if addr == 0 then none else some (init addr size)

-- `(next_stack + alloc_size + round) & align_mask`
unfoldable pub stack_next : Stack → ℕ → ℕ
stack_next s size = (s.next_stack + size + (s.align - 1)) % 2 ^ 64 / s.align * s.align

-- `SASSimpleStackAllocNoLock` and `SASSimpleStackAlloc`
unfoldable pub alloc_no_lock : Stack → ℕ → Option ℕ × Stack
unfolding check_type stack_next
alloc_no_lock s size =
    if check_type s.block simple_stack
    then if leb (stack_next s size) s.end_stack
      then (some s.next_stack, record s { next_stack = stack_next s size })
      else (none, s)
    else (none, s)

unfoldable pub alloc : Stack → ℕ → Option ℕ × Stack
unfolding check_type alloc_no_lock
alloc s size = if check_type s.block simple_stack then alloc_no_lock s size else (none, s)

-- `SASSimpleStackNearAllocNoLock` and `SASSimpleStackNearAlloc` on what `SASFindHeader` found
unfoldable pub near_alloc_no_lock : Option Stack → ℕ → Option ℕ × Option Stack
unfolding alloc_no_lock
near_alloc_no_lock none size = (none, none)
near_alloc_no_lock (some s) size = let (at, s') = alloc_no_lock s size in (at, some s')

-- `SASSimpleStackDeallocNoLock` and `SASSimpleStackDealloc`; the second one also tests the alignment
unfoldable pub contained : Stack → ℕ → Bool
contained s sp = leb s.start_stack sp && leb sp s.end_stack

unfoldable pub dealloc_no_lock : Stack → ℕ → Code × Stack
unfolding check_type contained
dealloc_no_lock s sp =
    if check_type s.block simple_stack
    then if contained s sp then (success, record s { next_stack = sp }) else (range_error, s)
    else (type_error, s)

unfoldable pub dealloc : Stack → ℕ → Code × Stack
unfolding check_type contained
dealloc s sp =
    if check_type s.block simple_stack
    then if contained s sp
      then if sp / s.align * s.align == sp
        then (success, record s { next_stack = sp })
        else (align_error, s)
      else (range_error, s)
    else (type_error, s)

-- `SASSimpleStackFreeSpaceNoLock` and `SASSimpleStackFreeSpace`
unfoldable pub free_space_no_lock : Stack → ℕ
unfolding check_type
free_space_no_lock s = if check_type s.block simple_stack then sub64 s.end_stack s.next_stack else 0

unfoldable pub free_space : Stack → ℕ
unfolding check_type free_space_no_lock
free_space s = if check_type s.block simple_stack then free_space_no_lock s else 0

-- `SASSimpleStackDestroyNoLock` and `SASSimpleStackDestroy`: what `SASBlockDealloc` is given
unfoldable pub destroy_no_lock : Stack → Code × Option (ℕ × ℕ)
unfolding check_subtype
destroy_no_lock s =
    if check_subtype s.block simple_stack
    then (success, some (s.block.addr, s.block.size))
    else (type_error, none)

unfoldable pub destroy : Stack → Code × Option (ℕ × ℕ)
unfolding check_subtype destroy_no_lock
destroy s = if check_subtype s.block simple_stack then destroy_no_lock s else (type_error, none)
