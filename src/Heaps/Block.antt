-- ===== src/Heaps/Block.antt =====
-- The header of a block: src/sasalloc.h and initSOMSASBlock of src/sasalloc.cpp, on a 64-bit platform.
--
-- `special`, `baseBlock` and `nextBlock`, which nothing modelled here reads, are left out.
use sphde.Base.{sub64, ℕ, ◌+◌, ◌*◌, ◌/◌, ◌%◌, ◌^◌, Bool, ◌&&◌, ◌==◌, Option, none, some, []}
use sphde.FreeNode
use sphde.FreeNode.{FreeList}

-- `SASBlockHeader`, with the address at which it stands.
pub record Block : Type 0 where
  pub addr : ℕ
  pub sig1 : ℕ
  pub block_type : ℕ
  pub sig2 : ℕ
  pub size : ℕ
  pub free_space : FreeList

abbrev pub signature1 : ℕ
signature1 = 72623859790382856

abbrev pub signature2 : ℕ
signature2 = 12008752378073033901

-- `heap_offset`, behind which the space of a heap begins.
abbrev pub heap_offset : ℕ
heap_offset = 128

-- `SAS_RUNTIME_SIMPLEHEAP`, `SAS_RUNTIME_SIMPLESTACK` and `SAS_RUNTIME_SIMPLESPACE`
abbrev pub simple_heap : ℕ
simple_heap = 269484288

abbrev pub simple_stack : ℕ
simple_stack = 270532864

abbrev pub simple_space : ℕ
simple_space = 271581440

-- `& SAS_TYPE_CHECK_MASK`, `& SAS_TYPE_MASK` and `& SAS_SUBTYPE_CHECK_MASK` of an `unsigned int`
unfoldable pub type_mask : ℕ → ℕ
type_mask t = t / 2 ^ 16 % 2 ^ 8 * 2 ^ 16

unfoldable pub type_check_mask : ℕ → ℕ
unfolding type_mask
type_check_mask t = t / 2 ^ 31 * 2 ^ 31 + type_mask t

unfoldable pub subtype_check_mask : ℕ → ℕ
subtype_check_mask t = t / 2 ^ 8 * 2 ^ 8

-- `SOMSASCheckBlockSig`, `SOMSASCheckBlockSigAndType` and `SOMSASCheckBlockSigAndTypeAndSubtype`
unfoldable pub check_sig : Block → Bool
check_sig b = b.sig1 == signature1 && b.sig2 == signature2

unfoldable pub check_type : Block → ℕ → Bool
unfolding check_sig type_mask type_check_mask
check_type b t = check_sig b && type_check_mask b.block_type == type_mask t

unfoldable pub check_subtype : Block → ℕ → Bool
unfolding check_sig subtype_check_mask
check_subtype b t = check_sig b && subtype_check_mask b.block_type == subtype_check_mask t

-- `initSOMSASBlock`, with the heap's start where it is not NULL
unfoldable pub init_block : ℕ → ℕ → ℕ → Option ℕ → Block
init_block addr t size start = record {
  addr = addr;
  sig1 = signature1;
  block_type = t;
  sig2 = signature2;
  size = size;
  free_space = elim start [ none ↦ [] | some at ↦ FreeNode.init at (sub64 size (sub64 at addr)) ];
}

-- What a function returns: 0, -1, -2 or -3.
pub data Code : Type 0 where
  success : Code
  type_error : Code
  range_error : Code
  align_error : Code
