-- ===== src/FreeNode.antt =====
-- src/freenode.c and src/freenode.h: the free list of a heap.
--
-- A list is what is reached from `*head` through `nextNode`, each node as its address and its
-- `nodeSize`. Addresses and sizes are `unsigned long` of 64 bits, and `add64` is their addition.
-- A function that writes through `FreeNode **head` returns the list that it leaves. The code writes the
-- node of a block that is given back over the first bytes of the block: a block overlaps no node of the
-- list here, unless it begins where the only node does.
pub mod Shape
pub mod Cover
pub mod Alloc
pub mod Totals
mod Tests
use sphde.Base.{
  add64, ℕ, ◌+◌, ◌-◌, ◌*◌, ◌/◌, ◌%◌, ◌^◌, Bool, ◌&&◌, ltb, leb, ◌==◌, if◌then◌else◌, Option, none,
  some, List, [], ◌∷◌,
}

-- `struct freeNode`, with the address at which it stands in place of the link to the next.
pub record Node : Type 0 where
  pub addr : ℕ
  pub size : ℕ

abbrev pub FreeList : Type 0
FreeList = List Node

-- `sizeof(struct freeNode)`: a pointer and an `unsigned long`.
abbrev pub node_align : ℕ
node_align = 16

abbrev pub end_of : Node → ℕ
end_of n = add64 n.addr n.size

-- `((size + nodeRound) / nodeAlign) * nodeAlign`
unfoldable pub round_size : ℕ → ℕ
round_size size = add64 size (node_align - 1) / node_align * node_align

-- `freeNode_init` on the node at `addr`.
unfoldable pub init : ℕ → ℕ → FreeList
init addr size = record { addr = addr; size = size } ∷ []

-- The three scans of `freeNode_*Total` and `freeNode_maxFragment`. They start at a node, so they are
-- given it and the list behind it.
unfoldable pub count_rest : FreeList → ℕ → ℕ
count_rest [] acc = acc
count_rest (n ∷ rest) acc = count_rest rest (add64 acc 1)

unfoldable pub free_fragments_total : Node → FreeList → ℕ
unfolding count_rest
free_fragments_total first rest = count_rest rest 1

unfoldable pub max_rest : FreeList → ℕ → ℕ
max_rest [] acc = acc
max_rest (n ∷ rest) acc = max_rest rest (if ltb acc n.size then n.size else acc)

unfoldable pub max_fragment : Node → FreeList → ℕ
unfolding max_rest
max_fragment first rest = max_rest rest first.size

unfoldable pub sum_rest : FreeList → ℕ → ℕ
sum_rest [] acc = acc
sum_rest (n ∷ rest) acc = sum_rest rest (add64 acc n.size)

unfoldable pub free_space_total : Node → FreeList → ℕ
unfolding sum_rest
free_space_total first rest = sum_rest rest first.size

-- The three ways that the loop of `freeNode_insertNode` stops, with the list from `head` on that
-- each leaves.

-- The block begins where `head` ends: `head` grows by it, and by `temp` if that is adjacent too.
unfoldable pub grow_head : Node → ℕ → FreeList → FreeList
grow_head head size [] = record head { size = add64 head.size size } ∷ []
grow_head head size (temp ∷ rest) =
    let grown = add64 head.size size in
    if temp.addr == add64 head.addr grown
    then record head { size = add64 grown temp.size } ∷ rest
    else record head { size = grown } ∷ temp ∷ rest

-- The block ends where `temp` begins, or lies between `head` and `temp`.
unfoldable pub put_between : ℕ → Node → ℕ → Node → FreeList → FreeList
put_between block head size temp rest =
    if temp.addr == add64 block size
    then head ∷ record { addr = block; size = add64 size temp.size } ∷ rest
    else head ∷ record { addr = block; size = size } ∷ temp ∷ rest

-- The end of the list. A block that is `head` itself is not linked again.
unfoldable pub put_last : ℕ → Node → ℕ → FreeList
put_last block head size =
    let last : Node = record { addr = block; size = size } in
    if block == head.addr then last ∷ [] else head ∷ last ∷ []

-- `freeNode_insertNode`: the recursion is its loop, `temp` the node behind `head`.
unfoldable pub insert_node : ℕ → Node → ℕ → FreeList → FreeList
unfolding grow_head put_between put_last
insert_node block head size [] =
    if block == end_of head then grow_head head size [] else put_last block head size
insert_node block head size (temp ∷ rest) =
    let onward = head ∷ insert_node block temp size rest in
    if ltb (end_of head) block && ltb temp.addr block
    then onward
    else if block == end_of head
    then grow_head head size (temp ∷ rest)
    else put_between block head size temp rest

-- `freeNode_deallocSpace`
unfoldable pub dealloc_space : ℕ → FreeList → ℕ → FreeList
unfolding insert_node round_size
dealloc_space block [] size = record { addr = block; size = round_size size } ∷ []
dealloc_space block (h ∷ rest) size =
    let n_size = round_size size in
    if ltb block h.addr
    then if h.addr == add64 block n_size
      then record { addr = block; size = add64 h.size n_size } ∷ rest
      else record { addr = block; size = n_size } ∷ h ∷ rest
    else insert_node block h n_size rest

-- `freeNode_allocNode` on a list whose first node is big enough: the allocation is the front of that
-- node, and the list keeps what remains of it.
unfoldable pub alloc_node : Node → FreeList → ℕ → ℕ × FreeList
alloc_node h rest size =
    let delta = h.size - size in
    if delta == 0
    then (h.addr, rest)
    else (h.addr, record { addr = add64 h.addr size; size = delta } ∷ rest)

-- The search of `freeNode_allocSpace` with the size rounded: the head and the nodes behind it are
-- tried in order, and the first that is big enough gives the space.
unfoldable pub alloc_first : FreeList → ℕ → Option (ℕ × FreeList)
unfolding alloc_node
alloc_first [] size = none
alloc_first (h ∷ rest) size =
    let found = alloc_first rest size in
    if leb size h.size
    then some (alloc_node h rest size)
    else elim found [ none ↦ none | some (at, rest') ↦ some (at, h ∷ rest') ]

-- `freeNode_allocSpace`; `none` is its NULL, which leaves the list as it is.
unfoldable pub alloc_space : FreeList → ℕ → Option (ℕ × FreeList)
unfolding alloc_first round_size
alloc_space l size = alloc_first l (round_size size)
