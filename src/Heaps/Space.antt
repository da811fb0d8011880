-- ===== src/Heaps/Space.antt =====
-- src/sassimplespace.cpp: a space in one block, on a 64-bit platform.
use sphde.Base.{sub64, add64, ℕ, zero, suc, ◌-◌, ltb, ◌==◌, if◌then◌else◌, Option, none, some}
use sphde.FreeNode
use sphde.FreeNode.{FreeList}
use sphde.Heaps.Block.{
  Block, simple_space, check_type, check_subtype, init_block, Code, success, type_error,
}
use sphde.Heaps.Stack.{default_page}

-- `SASSimpleSpaceHeader`, whose size is 128, with the alignment that its mask stands for
pub record Space : Type 0 where
  pub block : Block
  pub start_space : ℕ
  pub end_space : ℕ
  pub end_alloc : ℕ
  pub align : ℕ
  pub header_free_space : FreeList

-- `SASSimpleSpaceInitInternal` and `SASSimpleSpaceInit`
unfoldable pub init_internal : ℕ → ℕ → ℕ → ℕ → Space
unfolding init_block FreeNode.init
init_internal addr t block_size space_size = record {
  block = init_block addr t block_size none;
  start_space = add64 addr default_page;
  end_space = add64 (add64 addr default_page) space_size;
  end_alloc = add64 addr block_size;
  align = 16;
  header_free_space = FreeNode.init (add64 addr 128) (default_page - 128);
}

unfoldable pub init : ℕ → ℕ → ℕ → Space
unfolding init_internal
init addr block_size space_size = init_internal addr simple_space block_size space_size

-- `while (min_size > p2_size) p2_size = p2_size + p2_size`, up to so many rounds
unfoldable pub double_until : ℕ → ℕ → ℕ → Option ℕ
double_until zero min_size p2_size = none
double_until (suc fuel) min_size p2_size =
    let rest = double_until fuel min_size (add64 p2_size p2_size) in
    if ltb p2_size min_size then rest else some p2_size

-- The block's size that `SASSimpleSpaceCreate` finds
unfoldable pub block_size_for : ℕ → ℕ → Option ℕ
unfolding double_until
block_size_for fuel space_size =
    double_until fuel (add64 space_size default_page) (add64 default_page default_page)

unfoldable pub space_at : ℕ → ℕ → ℕ → Option Space
unfolding init
space_at addr size space_size = if addr == 0 then none else some (init addr size space_size)

-- `SASSimpleSpaceCreate`, where `SASBlockAlloc` gives an address or 0. The outer result is none where the
-- fuel does not do.
unfoldable pub create : ℕ → (ℕ → ℕ) → ℕ → Option (Option Space)
unfolding block_size_for space_at
create fuel block_alloc space_size = elim (block_size_for fuel space_size) [
  | none ↦ none
  | some size ↦ some (space_at (block_alloc size) size space_size)
]

-- `SASSimpleSpaceToAddr`, NULL where the type is another, and `SASSimpleSpaceFromAddr`, where the
-- blocks in memory are given by their addresses
unfoldable pub to_addr : Space → Option ℕ
unfolding check_type
to_addr s = if check_type s.block simple_space then some s.start_space else none

unfoldable pub from_addr : (ℕ → Block) → ℕ → Option ℕ
unfolding check_type
from_addr memory space =
    let header = sub64 space default_page in
    if check_type (memory header) simple_space then some header else none

-- `SASSimpleSpaceFreeSpaceNoLock` and `SASSimpleSpaceFreeSpace`
unfoldable pub free_space_no_lock : Space → ℕ
unfolding check_type
free_space_no_lock s = if check_type s.block simple_space then sub64 s.end_alloc s.end_space else 0

unfoldable pub free_space : Space → ℕ
unfolding check_type free_space_no_lock
free_space s = if check_type s.block simple_space then free_space_no_lock s else 0

-- `SASSimpleSpaceDestroyNoLock` and `SASSimpleSpaceDestroy`: what `SASBlockDealloc` is given
unfoldable pub destroy_no_lock : Space → Code × Option (ℕ × ℕ)
unfolding check_subtype
destroy_no_lock s =
    if check_subtype s.block simple_space
    then (success, some (s.block.addr, s.block.size))
    else (type_error, none)

unfoldable pub destroy : Space → Code × Option (ℕ × ℕ)
unfolding check_subtype destroy_no_lock
destroy s = if check_subtype s.block simple_space then destroy_no_lock s else (type_error, none)
