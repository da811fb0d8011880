-- ===== src/FreeNode/Tests.antt =====
-- Runs of the free list, and the theorems at concrete lists.
use sphde.Base.{ℕ, ◌<◌, ◌≡◌, refl, true, none, some, ◌||◌, ◌↔◌, [], ◌∷◌, arith, inl, inr, length}
use sphde.FreeNode.{
  Node, FreeList, round_size, dealloc_space, alloc_space, max_fragment, free_space_total,
  free_fragments_total,
}
use sphde.FreeNode.Shape.{IsValid, IsApart, IsBlock, dealloc_space-IsValid}
use sphde.FreeNode.Cover.{in_block, covers, covers-dealloc_space}
use sphde.FreeNode.Alloc.{alloc_space_lem, alloc_space_nothing, dealloc_space-alloc_space}
use sphde.FreeNode.Totals.{space, totals_lem, alloc_space-none}

abbrev low : Node
low = record { addr = 4096; size = 32 }

abbrev high : Node
high = record { addr = 4224; size = 64 }

abbrev two_nodes : FreeList
two_nodes = low ∷ high ∷ []

two_nodes-IsValid : IsValid two_nodes
two_nodes-IsValid = omega arith

-- 96 bytes fill the gap between the two nodes, and all three become one.
merge_three : dealloc_space 4128 two_nodes 90 ≡ record { addr = 4096; size = 192 } ∷ []
unfolding dealloc_space
merge_three = refl

alloc_runs : alloc_space two_nodes 40 ≡ some (4224, low ∷ record { addr = 4272; size = 16 } ∷ [])
unfolding alloc_space
alloc_runs = refl

gap-IsBlock : IsBlock 4160 (round_size 20)
unfolding round_size
gap-IsBlock = omega arith

gap-IsApart : IsApart 4160 (round_size 20) two_nodes
unfolding round_size
gap-IsApart = (inr (omega arith), (inl (omega arith), tt))

dealloc_space-IsValid_example : IsValid (dealloc_space 4160 two_nodes 20)
dealloc_space-IsValid_example =
    dealloc_space-IsValid 4160 20 two_nodes gap-IsBlock two_nodes-IsValid gap-IsApart

covers-dealloc_space_example :
    covers (dealloc_space 4160 two_nodes 20) 4170
    ≡ in_block 4160 (round_size 20) 4170 || covers two_nodes 4170
covers-dealloc_space_example =
    covers-dealloc_space 4160 20 two_nodes 4170 gap-IsBlock two_nodes-IsValid gap-IsApart

alloc_space_lem_example :
    let rest : FreeList = low ∷ record { addr = 4272; size = 16 } ∷ [] in
    IsValid rest
    × IsApart 4224 (round_size 40) rest
    × ((a : ℕ) → covers two_nodes a ≡ in_block 4224 (round_size 40) a || covers rest a)
alloc_space_lem_example =
    alloc_space_lem two_nodes 40 4224 _ (omega arith) (omega arith) two_nodes-IsValid alloc_runs

dealloc_space-alloc_space_example :
    dealloc_space 4224 (low ∷ record { addr = 4272; size = 16 } ∷ []) 40 ≡ two_nodes
dealloc_space-alloc_space_example =
    dealloc_space-alloc_space two_nodes 40 4224 _ (omega arith) (omega arith) two_nodes-IsValid
      alloc_runs

totals_lem_example :
    (free_space_total low (high ∷ []) ≡ space two_nodes)
    × (free_fragments_total low (high ∷ []) ≡ length two_nodes)
totals_lem_example = totals_lem low (high ∷ []) two_nodes-IsValid

gap_given : dealloc_space 4160 two_nodes 20 ≡ low ∷ record { addr = 4160; size = 32 } ∷ high ∷ []
unfolding dealloc_space
gap_given = refl

alloc_space-none_example :
    (alloc_space two_nodes 70 ≡ none) ↔ (max_fragment low (high ∷ []) < round_size 70)
alloc_space-none_example = alloc_space-none low (high ∷ []) 70

alloc_space_nothing_example :
    (alloc_space two_nodes 0 ≡ some (4096, two_nodes))
    × (covers two_nodes 4096 ≡ true)
    × (dealloc_space 4096 (low ∷ []) 0 ≡ record { addr = 4096; size = 0 } ∷ [])
alloc_space_nothing_example =
    alloc_space_nothing low (high ∷ []) 0 two_nodes-IsValid (omega arith) (inl refl)
