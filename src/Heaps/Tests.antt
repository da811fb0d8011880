-- ===== src/Heaps/Tests.antt =====
-- The theorems on the heaps of one block at concrete blocks.
use sphde.Base.{
  ℕ, ◌+◌, ◌-◌, ◌*◌, ◌%◌, ◌^◌, ◌≤◌, ◌<◌, ◌≡◌, ◌≢◌, ◌⊎◌, refl, leb, if◌then◌else◌, List, [], ◌∷◌,
  none, some, arith,
}
use sphde.FreeNode
use sphde.FreeNode.{FreeList, round_size, alloc_space, alloc_first, alloc_node}
use sphde.Heaps.Block.{
  Block, simple_heap, simple_stack, check_type, check_sig, type_mask, type_check_mask, init_block,
  success, range_error, align_error,
}
use sphde.Heaps.Simple
use sphde.Heaps.SimpleUse.{Use, Without, start, onward, allocate, Shared, reach_lem}
use sphde.Heaps.Stack
use sphde.Heaps.Stack.{Stack}
use sphde.Heaps.StackLaws.{
  IsStack, in_units, stack_alloc_lem, stack_alloc_wraps, stack_dealloc_lem, alloc_all, Small,
  dealloc-alloc_all,
}
use sphde.Heaps.Space
use sphde.Heaps.SpaceLaws.{block_size_lem, block_size_none}

abbrev heap : Block
heap = record (init_block 4096 simple_heap 4096 none) {
  free_space = record { addr = 4224; size = 3968 } ∷ [];
}

abbrev heap_after : Block
heap_after = record heap { free_space = record { addr = 4336; size = 3856 } ∷ [] }

abbrev one_use : List Use
one_use = record { at = 4224; size = 100 } ∷ []

heap_made : Simple.init 4096 simple_heap 4096 ≡ some heap
unfolding Simple.init init_block FreeNode.init
heap_made = refl

one_alloc : Simple.alloc heap 100 ≡ (some 4224, heap_after)
unfolding Simple.alloc Simple.alloc_no_lock Simple.take_space Simple.heap_size init_block check_type
    check_sig type_mask type_check_mask alloc_space alloc_first alloc_node round_size
one_alloc = refl

reach_lem_example :
    Shared heap_after one_use
    × ((u : Use) (us : List Use)
        → Without u one_use us
        → (Simple.free heap_after u.at u.size).0 ≡ success)
reach_lem_example =
    reach_lem 4096 4096 heap (heap_after, one_use) (omega arith) (omega arith) (omega arith) refl
      heap_made
      (onward (heap, []) (heap_after, one_use) start
        (allocate heap heap_after [] 4224 100 (omega arith) one_alloc))

abbrev stack : Stack
stack = record {
  block = init_block 4096 simple_stack 8192 none;
  next_stack = 8192;
  start_stack = 8192;
  end_stack = 12288;
  align = 16;
  header_free_space = [];
}

stack-IsStack : IsStack stack
unfolding check_type check_sig type_mask type_check_mask init_block
stack-IsStack = record {
  is_type = refl;
  alignment = refl;
  aligned = refl;
  started = omega arith;
  bounded = omega arith;
  in_memory = omega arith;
}

stack_alloc_lem_example :
    (Stack.alloc stack 100 ≡ (
      if leb (in_units 100) (Stack.free_space stack)
      then (some 8192, record stack { next_stack = 8192 + in_units 100 })
      else (none, stack)))
    × IsStack (Stack.alloc stack 100).1
    × (Stack.free_space (Stack.alloc stack 100).1 ≡ (
        if leb (in_units 100) (Stack.free_space stack)
        then Stack.free_space stack - in_units 100
        else Stack.free_space stack))
stack_alloc_lem_example = stack_alloc_lem stack stack-IsStack 100 (omega arith)

stack_alloc_wraps_example :
    ((Stack.alloc stack (2 ^ 64 - 100)).0 ≡ some 8192)
    × ((Stack.alloc stack (2 ^ 64 - 100)).1.next_stack ≤ 8192)
stack_alloc_wraps_example =
    stack_alloc_wraps stack stack-IsStack (2 ^ 64 - 100) (omega arith) (omega arith)

stack_dealloc_lem_example :
    ((8192 ≤ 8208)
      × (8208 ≤ 12288)
      × (8208 % 16 ≡ 0)
      × (Stack.dealloc stack 8208 ≡ (success, record stack { next_stack = 8208 }))
      × IsStack (record stack { next_stack = 8208 })
      × (Stack.free_space (record stack { next_stack = 8208 }) ≡ 12288 - 8208))
    ⊎ ((8192 ≤ 8208)
        × (8208 ≤ 12288)
        × (8208 % 16 ≢ 0)
        × (Stack.dealloc stack 8208 ≡ (align_error, stack)))
    ⊎ (((8208 < 8192) ⊎ (12288 < 8208)) × (Stack.dealloc stack 8208 ≡ (range_error, stack)))
stack_dealloc_lem_example = stack_dealloc_lem stack 8208 stack-IsStack

abbrev stack_after : Stack
stack_after = record stack { next_stack = 8336 }

two_allocs : alloc_all stack (100 ∷ 20 ∷ []) ≡ some stack_after
unfolding alloc_all Stack.alloc Stack.alloc_no_lock Stack.stack_next check_type check_sig type_mask
    type_check_mask init_block
two_allocs = refl

two_sizes : Small stack (100 ∷ 20 ∷ [])
unfolding Small Stack.alloc Stack.alloc_no_lock Stack.stack_next check_type check_sig type_mask
    type_check_mask init_block
two_sizes = (omega arith, (omega arith, tt))

dealloc-alloc_all_example : Stack.dealloc stack_after 8192 ≡ (success, stack)
dealloc-alloc_all_example =
    dealloc-alloc_all stack stack_after (100 ∷ 20 ∷ []) stack-IsStack two_sizes two_allocs

block_size_lem_example :
    (q : ℕ) × (Space.block_size_for 52 20000 ≡ some q)
    × (20000 + 4096 ≤ q)
    × ((q ≡ 8192) ⊎ (q < 2 * (20000 + 4096)))
block_size_lem_example = block_size_lem 20000 (omega arith)

block_size_none_example : Space.block_size_for 1000 (2 ^ 63) ≡ none
block_size_none_example = block_size_none (2 ^ 63) 1000 (omega arith) (omega arith)
