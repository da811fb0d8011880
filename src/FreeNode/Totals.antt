-- ===== src/FreeNode/Totals.antt =====
-- What the totals of a free list count.
use sphde.Base.{add64, ℕ, ◌+◌, ◌^◌, ◌≤◌, ◌<◌, ◌≡◌, ◌↔◌, none, [], ◌∷◌, arith, length}
use mathlib.Core.Path.{subst, ap}
use sphde.FreeNode.{
  Node, FreeList, round_size, insert_node, dealloc_space, alloc_first, alloc_space, count_rest,
  free_fragments_total, sum_rest, free_space_total, max_rest, max_fragment,
}
use sphde.FreeNode.Shape.{FitsFrom, IsValid, IsApart, IsBlock, dealloc_space-IsValid}

-- The sizes of the nodes, added without a bound.
abbrev pub space : FreeList → ℕ
space [] = 0
space (n ∷ rest) = n.size + space rest

space-lt : (lo : ℕ) (l : FreeList) → lo < 2 ^ 64 → FitsFrom lo l → lo + space l < 2 ^ 64
space-lt lo [] p f = omega arith
space-lt lo (n ∷ rest) p f = omega (arith, space-lt (n.addr + n.size) rest)

sum_rest-space : (l : FreeList) (acc : ℕ) → acc + space l < 2 ^ 64 → sum_rest l acc ≡ acc + space l
unfolding sum_rest
sum_rest-space [] acc p = omega arith
sum_rest-space (n ∷ rest) acc p = omega (arith, sum_rest-space rest (add64 acc n.size))

count_rest-length :
    (l : FreeList) (acc : ℕ) → acc + length l < 2 ^ 64 → count_rest l acc ≡ acc + length l
unfolding count_rest
count_rest-length [] acc p = omega arith
count_rest-length (n ∷ rest) acc p = omega (arith, count_rest-length rest (add64 acc 1))

length-le-space : (lo : ℕ) (l : FreeList) → FitsFrom lo l → length l ≤ space l
length-le-space lo [] f = omega arith
length-le-space lo (n ∷ rest) f = omega (arith, length-le-space (n.addr + n.size) rest f.1)

-- On a valid list the totals do not wrap: they are the sum of the sizes and the number of nodes.
pub totals_lem :
    (h : Node) (rest : FreeList)
    → IsValid (h ∷ rest)
    → (free_space_total h rest ≡ space (h ∷ rest))
      × (free_fragments_total h rest ≡ length (h ∷ rest))
unfolding free_space_total free_fragments_total
totals_lem h rest v = omega (
  arith,
  space-lt (h.addr + h.size) rest,
  sum_rest-space rest h.size,
  count_rest-length rest 1,
  length-le-space (h.addr + h.size) rest v.1,
)

space-insert_node :
    (lo block size : ℕ) (head : Node) (rest : FreeList)
    → IsBlock block size
    → head.addr < block
    → FitsFrom lo (head ∷ rest)
    → IsApart block size (head ∷ rest)
    → space (insert_node block head size rest) ≡ size + space (head ∷ rest)
unfolding insert_node
space-insert_node lo block size head [] b h f p = ground arith
space-insert_node lo block size head (temp ∷ rest) b h f p =
    ground (arith, space-insert_node (head.addr + head.size) block size temp rest)

space-dealloc_space :
    (block size : ℕ) (l : FreeList)
    → IsBlock block (round_size size)
    → IsValid l
    → IsApart block (round_size size) l
    → space (dealloc_space block l size) ≡ round_size size + space l
unfolding dealloc_space
space-dealloc_space block size [] b v a = ground arith
space-dealloc_space block size (h ∷ rest) b v a =
    ground (arith, space-insert_node 0 block (round_size size) h rest)

-- Giving back a block raises the total free space by its rounded size.
pub free_space_total-dealloc_space :
    (block size : ℕ) (h : Node) (rest : FreeList) (h' : Node) (rest' : FreeList)
    → IsBlock block (round_size size)
    → IsValid (h ∷ rest)
    → IsApart block (round_size size) (h ∷ rest)
    → dealloc_space block (h ∷ rest) size ≡ h' ∷ rest'
    → free_space_total h' rest' ≡ free_space_total h rest + round_size size
free_space_total-dealloc_space block size h rest h' rest' b v a e =
    let v' : IsValid (h' ∷ rest') =
      subst IsValid e (dealloc_space-IsValid block size (h ∷ rest) b v a) in
    omega (
      arith,
      (totals_lem h rest v).0,
      (totals_lem h' rest' v').0,
      space-dealloc_space block size (h ∷ rest) b v a,
      ap space e,
    )

max_rest-lt :
    (l : FreeList) (acc size : ℕ)
    → (max_rest l acc < size) ↔ ((acc < size) × (alloc_first l size ≡ none))
unfolding max_rest alloc_first
max_rest-lt [] acc size = ground arith
max_rest-lt (h ∷ rest) acc size =
    ground (arith, max_rest-lt rest acc size, max_rest-lt rest h.size size)

-- An allocation fails exactly when the largest fragment is smaller than the rounded size.
pub alloc_space-none :
    (h : Node) (rest : FreeList) (size : ℕ)
    → (alloc_space (h ∷ rest) size ≡ none) ↔ (max_fragment h rest < round_size size)
unfolding alloc_space max_fragment alloc_first
alloc_space-none h rest size = ground (arith, max_rest-lt rest h.size (round_size size))
