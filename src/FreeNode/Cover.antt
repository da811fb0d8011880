-- ===== src/FreeNode/Cover.antt =====
-- The bytes that a free list holds.
use sphde.Base.{ℕ, ◌+◌, ◌<◌, ◌≡◌, Bool, false, ◌&&◌, ◌||◌, ltb, leb, [], ◌∷◌, arith}
use sphde.FreeNode.{Node, FreeList, round_size, insert_node, dealloc_space}
use sphde.FreeNode.Shape.{FitsFrom, IsValid, IsApart, IsBlock}

-- Byte `a` is one of the `size` bytes from `block` on.
abbrev pub in_block : ℕ → ℕ → ℕ → Bool
in_block block size a = leb block a && ltb a (block + size)

-- Byte `a` is free.
abbrev pub covers : FreeList → ℕ → Bool
covers [] a = false
covers (n ∷ rest) a = in_block n.addr n.size a || covers rest a

covers-insert_node :
    (lo block size : ℕ) (head : Node) (rest : FreeList) (a : ℕ)
    → IsBlock block size
    → head.addr < block
    → FitsFrom lo (head ∷ rest)
    → IsApart block size (head ∷ rest)
    → covers (insert_node block head size rest) a ≡ in_block block size a || covers (head ∷ rest) a
unfolding insert_node
covers-insert_node lo block size head [] a b h f p = ground arith
covers-insert_node lo block size head (temp ∷ rest) a b h f p =
    ground (arith, covers-insert_node (head.addr + head.size) block size temp rest a)

-- After giving back a block, exactly its bytes are free beside those that were.
pub covers-dealloc_space :
    (block size : ℕ) (l : FreeList) (a : ℕ)
    → IsBlock block (round_size size)
    → IsValid l
    → IsApart block (round_size size) l
    → covers (dealloc_space block l size) a ≡ in_block block (round_size size) a || covers l a
unfolding dealloc_space
covers-dealloc_space block size [] a b v p = ground arith
covers-dealloc_space block size (h ∷ rest) a b v p =
    ground (arith, covers-insert_node 0 block (round_size size) h rest a)
