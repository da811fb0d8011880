-- ===== src/UlongTree/Order.antt =====
-- The order of the keys of the tree in src/ultree.cpp, and what its searches find.
use sphde.Base.{
  ℕ, ◌+◌, ◌≤◌, ◌<◌, ◌≡◌, ◌⊎◌, ◌↔◌, inl, inr, ap, sym, ltb, ◌==◌, if◌then◌else◌, Bool-cases, arith,
}
use sphde.UlongTree.Defs.{Tree, leaf, node, is_null, search_from, search_node}

-- The tree has a node of this key and info.
unfoldable pub Has : ℕ → ℕ → Tree → Type 0
Has k i leaf = ⊥
Has k i (node l key info r) = Has k i l ⊎ ((k ≡ key) × (i ≡ info)) ⊎ Has k i r

-- The keys are in order, from `lo` on and below `hi`.
unfoldable pub IsBst : ℕ → ℕ → Tree → Type 0
IsBst lo hi leaf = lo ≤ hi
IsBst lo hi (node l key info r) = (lo ≤ key) × (key < hi) × IsBst lo key l × IsBst (key + 1) hi r

pub children :
    (l r : Tree) (lo hi key info : ℕ)
    → IsBst lo hi (node l key info r)
    → (lo ≤ key) × (key < hi) × IsBst lo key l × IsBst (key + 1) hi r
unfolding IsBst
children l r lo hi key info b = b

pub key_bounds : (t : Tree) (lo hi k i : ℕ) → IsBst lo hi t → Has k i t → (lo ≤ k) × (k < hi)
unfolding Has IsBst
key_bounds leaf lo hi k i b h = absurd h
key_bounds (node l key info r) lo hi k i (lo_key, key_hi, bl, br) (inl h) =
    let (a, c) = key_bounds l lo key k i bl h in (a, omega (arith, c, key_hi))
key_bounds (node l key info r) lo hi k i (lo_key, key_hi, bl, br) (inr (inl (e, _))) =
    (omega (arith, e, lo_key), omega (arith, e, key_hi))
key_bounds (node l key info r) lo hi k i (lo_key, key_hi, bl, br) (inr (inr h)) =
    let (a, c) = key_bounds r (key + 1) hi k i br h in (omega (arith, a, lo_key), c)

abbrev key_of : Tree → ℕ
key_of leaf = 0
key_of (node l key info r) = key

abbrev info_of : Tree → ℕ
info_of leaf = 0
info_of (node l key info r) = info

-- The node that a search returns is one of the tree, or the one that it began with.
search_from-Has :
    (t : Tree) (k : ℕ) (q l r : Tree) (key info : ℕ)
    → search_from t k q ≡ node l key info r
    → Has key info t ⊎ (q ≡ node l key info r)
unfolding search_from Has
search_from-Has leaf k q l r key info e = inr e
search_from-Has (node tl tk ti tr) k q l r key info e = elim (Bool-cases (tk == k)) [
  | inl y ↦
      let same : node tl tk ti tr ≡ node l key info r = ground (arith, e, y) in
      inl (inr (inl (sym (ap key_of same), sym (ap info_of same))))
  | inr n ↦ elim (Bool-cases (ltb tk k)) [
    | inl y ↦ elim (Bool-cases (is_null tr)) [
      | inl z ↦
          elim (search_from-Has tr k (node tl tk ti tr) l r key info (ground (arith, e, n, y, z))) [
            | inl h ↦ inl (inr (inr h))
            | inr same ↦ inl (inr (inl (sym (ap key_of same), sym (ap info_of same))))
          ]
      | inr z ↦ elim (search_from-Has tr k q l r key info (ground (arith, e, n, y, z))) [
        | inl h ↦ inl (inr (inr h))
        | inr same ↦ inr same
      ]
    ]
    | inr m ↦ elim (Bool-cases (is_null tl)) [
      | inl z ↦
          elim (search_from-Has tl k (node tl tk ti tr) l r key info (ground (arith, e, n, m, z))) [
            | inl h ↦ inl (inl h)
            | inr same ↦ inl (inr (inl (sym (ap key_of same), sym (ap info_of same))))
          ]
      | inr z ↦ elim (search_from-Has tl k q l r key info (ground (arith, e, n, m, z))) [
        | inl h ↦ inl (inl h)
        | inr same ↦ inr same
      ]
    ]
  ]
]

-- In a tree in order the search reaches the node of its key.
Has-search_from :
    (t : Tree) (lo hi k i : ℕ) (q : Tree)
    → IsBst lo hi t
    → Has k i t
    → (l : Tree) × (r : Tree) × (search_from t k q ≡ node l k i r)
unfolding search_from Has IsBst
Has-search_from leaf lo hi k i q b h = absurd h
Has-search_from (node tl tk ti tr) lo hi k i q (lo_key, key_hi, bl, br) (inl h) =
    let (lo_k, k_key) = key_bounds tl lo tk k i bl h in
    let (l, r, e) =
      Has-search_from tl lo tk k i (if is_null tl then node tl tk ti tr else q) bl h in
    (l, r, ground (arith, e, k_key))
Has-search_from (node tl tk ti tr) lo hi k i q (lo_key, key_hi, bl, br) (inr (inl (e, f))) =
    (tl, tr, ground (arith, e, f))
Has-search_from (node tl tk ti tr) lo hi k i q (lo_key, key_hi, bl, br) (inr (inr h)) =
    let (key_k, k_hi) = key_bounds tr (tk + 1) hi k i br h in
    let (l, r, e) =
      Has-search_from tr (tk + 1) hi k i (if is_null tr then node tl tk ti tr else q) br h in
    (l, r, ground (arith, e, key_k))

-- In a tree in order the search returns a node of the key, with its info, exactly where the tree has
-- one.
pub search_node_iff :
    (t : Tree) (lo hi k i : ℕ)
    → IsBst lo hi t
    → Has k i t ↔ ((l : Tree) × (r : Tree) × (search_node t k ≡ node l k i r))
unfolding search_node
search_node_iff t lo hi k i b = (
  Has-search_from t lo hi k i leaf b,
  λ found. elim (search_from-Has t k leaf found.0 found.1 k i found.2) [
    | inl h ↦ h
    | inr e ↦ absurd (ground (arith, ap is_null e))
  ],
)
