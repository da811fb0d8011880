-- ===== src/FreeNode/Shape.antt =====
-- The shape of a free list: sorted by address, its nodes apart from one another, their sizes whole
-- units. `dealloc_space` of a block that no node overlaps keeps it.
use sphde.Base.{ℕ, ◌+◌, ◌%◌, ◌^◌, ◌≤◌, ◌<◌, ◌≡◌, ◌⊎◌, [], ◌∷◌, arith}
use sphde.FreeNode.{Node, FreeList, node_align, round_size, insert_node, dealloc_space}

-- A node that begins past `lo` and does not reach the end of the address space.
pub record FitsAbove (lo : ℕ) (n : Node) : Type 0 where
  pub above : lo < n.addr
  pub nonempty : 0 < n.size
  pub whole : n.size % node_align ≡ 0
  pub in_space : n.addr + n.size < 2 ^ 64

-- Every node fits above the end of the one before it, with a gap: neighbours are merged.
abbrev pub FitsFrom : ℕ → FreeList → Type 0
FitsFrom lo [] = Unit
FitsFrom lo (n ∷ rest) = FitsAbove lo n × FitsFrom (n.addr + n.size) rest

-- No node begins at NULL.
abbrev pub IsValid : FreeList → Type 0
IsValid l = FitsFrom 0 l

-- The bytes from `block` on, `size` of them, are in no node.
abbrev pub IsApart : ℕ → ℕ → FreeList → Type 0
IsApart block size [] = Unit
IsApart block size (n ∷ rest) =
    ((block + size ≤ n.addr) ⊎ (n.addr + n.size ≤ block)) × IsApart block size rest

-- A block that can be given back: not NULL, of whole units, inside the address space.
pub record IsBlock (block size : ℕ) : Type 0 where
  pub not_null : 0 < block
  pub some_units : 0 < size
  pub whole_units : size % node_align ≡ 0
  pub in_memory : block + size < 2 ^ 64

pub insert_node-FitsFrom :
    (lo block size : ℕ) (head : Node) (rest : FreeList)
    → IsBlock block size
    → head.addr < block
    → FitsFrom lo (head ∷ rest)
    → IsApart block size (head ∷ rest)
    → FitsFrom lo (insert_node block head size rest)
unfolding insert_node
insert_node-FitsFrom lo block size head [] b h f a = ground arith
insert_node-FitsFrom lo block size head (temp ∷ rest) b h f a =
    ground (arith, insert_node-FitsFrom (head.addr + head.size) block size temp rest)

-- `round_size` is the least whole number of units that holds the size.
pub round_size_bounds :
    (size : ℕ)
    → size + 15 < 2 ^ 64
    → (size ≤ round_size size)
      × (round_size size < size + node_align)
      × (round_size size % node_align ≡ 0)
unfolding round_size
round_size_bounds size h = omega arith

-- Giving back a block that overlaps no free node leaves a valid list.
pub dealloc_space-IsValid :
    (block size : ℕ) (l : FreeList)
    → IsBlock block (round_size size)
    → IsValid l
    → IsApart block (round_size size) l
    → IsValid (dealloc_space block l size)
unfolding dealloc_space
dealloc_space-IsValid block size [] b v a = ground arith
dealloc_space-IsValid block size (h ∷ rest) b v a =
    ground (arith, insert_node-FitsFrom 0 block (round_size size) h rest)
