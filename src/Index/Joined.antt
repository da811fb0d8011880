-- ===== src/Index/Joined.antt =====
-- The slots of a node of src/sasindexnode.cpp put together from those of two nodes and an entry.
use sphde.Base.{ℕ, zero, suc, ◌+◌, ◌≤◌, ◌<◌, ◌≡◌, ◌⊎◌, ◌↔◌, arith}
use sphde.Index.Nodes.{Node, node, Slots, nil, slot}
use sphde.Index.Order.{KeyOrder}
use sphde.Index.Shape.{Has, HasIn, Slotted, slots_le}
use sphde.Index.Insert.{push_in}
use sphde.Index.Delete.{join}

module _ {K : Type 0} (x : K) (v : ℕ) where
  pub Has-join :
      (b : Node K) (ls : Slots K) (k : K) (w : ℕ) (c : Node K) (rs : Slots K)
      → Has x v (node b (join ls k w c rs))
        ↔ (Has x v (node b ls) ⊎ ((x ≡ k) × (v ≡ w)) ⊎ Has x v (node c rs))
  unfolding Has HasIn join
  Has-join b nil k w c rs = ground arith
  Has-join b (slot k' w' d ls) k w c rs = ground (arith, Has-join d ls k w c rs)

  pub Has-push_in :
      (p : ℕ) (key : K) (val : ℕ) (r b : Node K) (ss : Slots K)
      → Has x v (node b (push_in p key val r ss))
        ↔ (Has x v (node b ss) ⊎ ((x ≡ key) × (v ≡ val)) ⊎ Has x v r)
  unfolding Has HasIn push_in
  Has-push_in zero key val r b ss = ground arith
  Has-push_in (suc p) key val r b nil = ground arith
  Has-push_in (suc p) key val r b (slot k w c ss) = ground (arith, Has-push_in p key val r c ss)

module _ {K : Type 0} (o : KeyOrder K) (P : ℕ → ℕ → Node K → Type 0)
    (le : (lo hi : ℕ) (b : Node K) → P lo hi b → lo ≤ hi) where
  open o use {rank}

  pub Slotted-join :
      (lo hi : ℕ) (b : Node K) (ls : Slots K) (k : K) (w : ℕ) (c : Node K) (rs : Slots K)
      → Slotted o P lo hi b (join ls k w c rs)
        ↔ (Slotted o P lo (rank k) b ls × (rank k < hi) × Slotted o P (rank k + 1) hi c rs)
  unfolding Slotted join
  Slotted-join lo hi b nil k w c rs = (λ s. s, λ s. s)
  Slotted-join lo hi b (slot k' w' d ls) k w c rs =
      let (apart, together) = Slotted-join (rank k' + 1) hi d ls k w c rs in
      (
        λ (s, lt, rest).
            let (left, lt', right) = apart rest in
            (
              (s, omega (arith, slots_le o P le (rank k' + 1) (rank k) d ls left), left),
              lt',
              right,
            ),
        λ (left, lt', right). (left.0, omega (arith, left.1, lt'), together (left.2, lt', right)),
      )
