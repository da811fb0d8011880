-- ===== src/UlongTree/Next.antt =====
-- `searchNextNode` of src/ultree.cpp.
use sphde.Base.{
  ℕ, ◌+◌, ◌≤◌, ◌<◌, ◌≡◌, ◌⊎◌, inl, inr, refl, sym, true, false, ltb, ◌==◌, Bool-cases, arith,
}
use sphde.UlongTree.Defs.{Tree, leaf, node, is_null, key_above, next_from, search_next_node}
use mathlib.Core.Path.{subst}
use sphde.UlongTree.Order.{Has, IsBst, key_bounds, children}

-- `s` is the node of the least key of `t` above `k`.
unfoldable pub IsLeastAbove : ℕ → Tree → Tree → Type 0
IsLeastAbove k t s =
    (l : Tree) × (key : ℕ) × (info : ℕ) × (r : Tree) × (s ≡ node l key info r)
    × Has key info t
    × (k < key)
    × ((k' i' : ℕ) → Has k' i' t → k < k' → key ≤ k')

-- No key of `t` is above `k`.
unfoldable pub NoneAbove : ℕ → Tree → Type 0
NoneAbove k t = (k' i' : ℕ) → Has k' i' t → k' ≤ k

-- The node of the least key above `k`, or, where there is none, the one that the search began with.
unfoldable pub Gives : ℕ → Tree → Tree → Tree → Type 0
Gives k t q s = (NoneAbove k t × (s ≡ q)) ⊎ IsLeastAbove k t s

module _ (l r : Tree) (lo hi key info k : ℕ) (b : IsBst lo hi (node l key info r)) where
  next_right : (s : Tree) → key ≤ k → IsLeastAbove k r s → IsLeastAbove k (node l key info r) s
  unfolding IsLeastAbove Has IsBst
  next_right s le (sl, sk, si, sr, e, h, above, least) = (
    sl,
    sk,
    si,
    sr,
    e,
    inr (inr h),
    above,
    λ k' i' g lt. elim g [
      | inl a ↦ absurd (omega (arith, key_bounds l lo key k' i' b.2 a, le, lt))
      | inr (inl (same, _)) ↦ absurd (omega (arith, same, le, lt))
      | inr (inr a) ↦ least k' i' a lt
    ],
  )

  none_right : key ≤ k → NoneAbove k r → NoneAbove k (node l key info r)
  unfolding NoneAbove Has IsBst
  none_right le none k' i' (inl a) = omega (arith, key_bounds l lo key k' i' b.2 a, le)
  none_right le none k' i' (inr (inl (same, _))) = omega (arith, same, le)
  none_right le none k' i' (inr (inr a)) = none k' i' a

  next_left : (s : Tree) → k < key → IsLeastAbove k l s → IsLeastAbove k (node l key info r) s
  unfolding IsLeastAbove Has IsBst
  next_left s lt (sl, sk, si, sr, e, h, above, least) =
      let low = key_bounds l lo key sk si b.2 h in
      (
        sl,
        sk,
        si,
        sr,
        e,
        inl h,
        above,
        λ k' i' g lt'. elim g [
          | inl a ↦ least k' i' a lt'
          | inr (inl (same, _)) ↦ omega (arith, same, low)
          | inr (inr a) ↦ omega (arith, key_bounds r (key + 1) hi k' i' b.3 a, low)
        ],
      )

  next_root : k < key → NoneAbove k l → IsLeastAbove k (node l key info r) (node l key info r)
  unfolding IsLeastAbove NoneAbove Has IsBst
  next_root lt none = (
    l,
    key,
    info,
    r,
    refl,
    inr (inl (refl, refl)),
    lt,
    λ k' i' g lt'. elim g [
      | inl a ↦ absurd (omega (arith, none k' i' a, lt'))
      | inr (inl (same, _)) ↦ omega (arith, same)
      | inr (inr a) ↦ omega (arith, key_bounds r (key + 1) hi k' i' b.3 a)
    ],
  )

  -- What the search in the right subtree gives, begun with its root where that is above `k`.
  next_in_right : (q s : Tree) → key ≤ k → Gives k r q s → Gives k (node l key info r) q s
  unfolding Gives
  next_in_right q s le (inl (none, e)) = inl (none_right le none, e)
  next_in_right q s le (inr least) = inr (next_right s le least)

  next_in_above :
      (q s : Tree) → key ≤ k → ¬ (NoneAbove k r) → Gives k r r s → Gives k (node l key info r) q s
  unfolding Gives
  next_in_above q s le some_above (inl (none, e)) = absurd (some_above none)
  next_in_above q s le some_above (inr least) = inr (next_right s le least)

  next_in_left :
      (q s : Tree) → k < key → Gives k l (node l key info r) s → Gives k (node l key info r) q s
  unfolding Gives
  next_in_left q s lt (inl (none, e)) =
      inr (subst (IsLeastAbove k (node l key info r)) (sym e) (next_root lt none))
  next_in_left q s lt (inr least) = inr (next_left s lt least)

next_leaf : (k : ℕ) (q : Tree) → Gives k leaf q q
unfolding Gives NoneAbove Has
next_leaf k q = inl (λ k' i' h. absurd h, refl)

null-NoneAbove : (t : Tree) (k : ℕ) → is_null t ≡ true → NoneAbove k t
unfolding is_null NoneAbove Has
null-NoneAbove leaf k e k' i' h = absurd h
null-NoneAbove (node l key info r) k e k' i' h = absurd (ground (arith, e))

no_next :
    (l r : Tree) (lo hi key info k : ℕ) (b : IsBst lo hi (node l key info r)) (q : Tree)
    → key ≤ k
    → is_null r ≡ true
    → Gives k (node l key info r) q q
unfolding Gives
no_next l r lo hi key info k b q le z =
    inl (none_right l r lo hi key info k b le (null-NoneAbove r k z), refl)

key_above-some : (t : Tree) (k : ℕ) → key_above t k ≡ true → ¬ (NoneAbove k t)
unfolding key_above NoneAbove Has
key_above-some leaf k e none = ground (arith, e)
key_above-some (node l key info r) k e none =
    ground (arith, e, none key info (inr (inl (refl, refl))))

child-some :
    (t : Tree) (lo hi k : ℕ) → IsBst lo hi t → k < lo → is_null t ≡ false → ¬ (NoneAbove k t)
unfolding is_null NoneAbove Has IsBst
child-some leaf lo hi k b lt e none = ground (arith, e)
child-some (node l key info r) lo hi k b lt e none =
    omega (arith, b.0, lt, none key info (inr (inl (refl, refl))))

next_from-Gives :
    (t : Tree) (lo hi k : ℕ) (q : Tree) → IsBst lo hi t → Gives k t q (next_from t k q)
unfolding next_from
next_from-Gives leaf lo hi k q b = next_leaf k q
next_from-Gives (node l key info r) lo hi k q b =
    let (_, _, bl, br) = children l r lo hi key info b in
    let t = node l key info r in
    elim (Bool-cases (key == k)) [
      | inl y ↦ elim (Bool-cases (is_null r)) [
        | inl z ↦
            let eq : next_from t k q ≡ q = ground (arith, y, z) in
            subst (Gives k t q) (sym eq) (no_next l r lo hi key info k b q (ground (arith, y)) z)
        | inr z ↦
            let eq : next_from t k q ≡ next_from r k r = ground (arith, y, z) in
            subst (Gives k t q) (sym eq) (
              next_in_above l r lo hi key info k b q (next_from r k r) (ground (arith, y))
                (child-some r (key + 1) hi k br (ground (arith, y)) z)
                (next_from-Gives r (key + 1) hi k r br))
      ]
      | inr n ↦ elim (Bool-cases (ltb key k)) [
        | inl y ↦ elim (Bool-cases (key_above r k)) [
          | inl z ↦
              let eq : next_from t k q ≡ next_from r k r = ground (arith, n, y, z) in
              subst (Gives k t q) (sym eq) (
                next_in_above l r lo hi key info k b q (next_from r k r) (ground (arith, y))
                  (key_above-some r k z) (next_from-Gives r (key + 1) hi k r br))
          | inr z ↦
              let eq : next_from t k q ≡ next_from r k q = ground (arith, n, y, z) in
              subst (Gives k t q) (sym eq) (
                next_in_right l r lo hi key info k b q (next_from r k q) (ground (arith, y))
                  (next_from-Gives r (key + 1) hi k q br))
        ]
        | inr m ↦
            let eq : next_from t k q ≡ next_from l k t = ground (arith, n, m) in
            subst (Gives k t q) (sym eq) (
              next_in_left l r lo hi key info k b q (next_from l k t) (ground (arith, n, m))
                (next_from-Gives l lo key k t bl))
      ]
    ]

-- In a tree in order the search gives the node of the least key above the one asked for, and NULL where
-- there is none.
pub search_next_node_lem :
    (t : Tree) (lo hi k : ℕ) → IsBst lo hi t → Gives k t leaf (search_next_node t k)
unfolding search_next_node
search_next_node_lem t lo hi k b = next_from-Gives t lo hi k leaf b
