-- ===== src/PcQueue/Ring.antt =====
-- The places of the ring by their index, and the entries in use as a list, oldest first.
use native.Mathlib.Nat.{mul-le-mul_right, add-zero}
use sphde.Base.{
  ℕ, zero, suc, ◌+◌, ◌-◌, ◌*◌, ◌^◌, ◌≤◌, ◌<◌, ◌≡◌, ◌≢◌, refl, ap, sym, ◌∙◌, ◌==◌, ℕ_discrete,
  dec_lt, leb, true, if◌then◌else◌, List, [], ◌∷◌, ◌++◌, length, set, get_or, arith,
}
use sphde.Entry.Header.{Header, Headers, put_header}
use sphde.PcQueue.Defs.{Queue, next_place}

-- The address of the place with index `i`.
unfoldable pub place : ℕ → ℕ → ℕ → ℕ
place startq stride i = startq + i * stride

-- The index behind `i`, and an index below `n + n` taken round the ring.
abbrev pub succ_in : ℕ → ℕ → ℕ
succ_in n i = if i + 1 == n then 0 else i + 1

abbrev pub wrap : ℕ → ℕ → ℕ
wrap n x = if leb n x then x - n else x

-- A ring of `n` places.
pub record IsRing (q : Queue) (n : ℕ) : Type 0 where
  pub typed : q.is_pc_queue ≡ true
  pub strided : 0 < q.stride
  pub ring_end : q.endq ≡ q.startq + n * q.stride
  pub in_space : q.endq + q.stride < 2 ^ 64

pub next_place-place :
    (q : Queue) (n i : ℕ)
    → IsRing q n
    → i < n
    → next_place q (place q.startq q.stride i) ≡ place q.startq q.stride (succ_in n i)
unfolding place
next_place-place q n i r h = elim (ℕ_discrete (i + 1) n) [
  | yes e ↦
      let first : succ_in n i ≡ 0 = ground arith in
      rw first (ground (arith, ap (λ (k : ℕ). k * q.stride) e))
  | no e ↦
      let second : succ_in n i ≡ i + 1 = ground arith in
      rw second (ground (arith, mul-le-mul_right {m = i + 2} {n = n} q.stride (omega arith)))
]

pub place-injective :
    (q : Queue) (n i j : ℕ)
    → IsRing q n
    → place q.startq q.stride i ≡ place q.startq q.stride j
    → i ≡ j
unfolding place
place-injective q n i j r e = elim (dec_lt i j) [
  | yes p ↦ absurd (omega (arith, mul-le-mul_right {m = i + 1} {n = j} q.stride (omega arith)))
  | no p ↦ elim (dec_lt j i) [
    | yes p' ↦ absurd (omega (arith, mul-le-mul_right {m = j + 1} {n = i} q.stride (omega arith)))
    | no p' ↦ omega arith
  ]
]

-- The headers of `c` places from index `t` on, going round at `n`.
unfoldable pub window : Headers → (ℕ → ℕ) → ℕ → ℕ → ℕ → List Header
window hs at n t zero = []
window hs at n t (suc c) = hs (at t) ∷ window hs at n (succ_in n t) c

pub window_cons :
    (hs : Headers) (at : ℕ → ℕ) (n t c : ℕ)
    → window hs at n t (suc c) ≡ hs (at t) ∷ window hs at n (succ_in n t) c
unfolding window
window_cons hs at n t c = refl

pub length-window : (hs : Headers) (at : ℕ → ℕ) (n t c : ℕ) → length (window hs at n t c) ≡ c
unfolding window
length-window hs at n t zero = refl
length-window hs at n t (suc c) = ap suc (length-window hs at n (succ_in n t) c)

pub succ_in-lt : (n t : ℕ) → t < n → succ_in n t < n
succ_in-lt n t h = ground arith

pub wrap-succ_in : (n t k : ℕ) → t < n → k < n → wrap n (succ_in n t + k) ≡ wrap n (t + suc k)
wrap-succ_in n t k h p = ground arith

pub wrap_ne : (n t k : ℕ) → t < n → suc k < n → wrap n (succ_in n t + k) ≢ t
wrap_ne n t k h p = ground arith

pub window_snoc :
    (hs : Headers) (at : ℕ → ℕ) (n t c : ℕ)
    → t < n
    → c < n
    → window hs at n t (suc c) ≡ window hs at n t c ++ hs (at (wrap n (t + c))) ∷ []
unfolding window
window_snoc hs at n t zero h p = ground (arith, add-zero t)
window_snoc hs at n t (suc c) h p = ap (◌∷◌ (hs (at t))) (
    window_snoc hs at n (succ_in n t) c (succ_in-lt n t h) (omega arith)
    ∙ ap (λ (k : ℕ). window hs at n (succ_in n t) c ++ hs (at k) ∷ [])
        (wrap-succ_in n t c h (omega arith)))

-- A header outside the window may change.
pub window-put_header_ne :
    (hs : Headers) (at : ℕ → ℕ) (n t c p : ℕ) (e : Header)
    → t < n
    → c ≤ n
    → ((k : ℕ) → k < c → at (wrap n (t + k)) ≢ p)
    → window (put_header hs p e) at n t c ≡ window hs at n t c
unfolding window
window-put_header_ne hs at n t zero p e h b ne = refl
window-put_header_ne hs at n t (suc c) p e h b ne =
    let first : wrap n (t + 0) ≡ t = ground arith in
    ground (
      arith,
      ap at first,
      ne 0 (omega arith),
      window-put_header_ne hs at n (succ_in n t) c p e (succ_in-lt n t h) (omega arith)
          (λ k l. rw (wrap-succ_in n t k h (omega arith)) (ne (suc k) (omega arith))),
    )

-- A header inside the window changes at its place in the list.
pub window-put_header :
    (hs : Headers) (at : ℕ → ℕ) (n t c k p : ℕ) (e : Header)
    → t < n
    → c ≤ n
    → k < c
    → ((i j : ℕ) → at i ≡ at j → i ≡ j)
    → p ≡ at (wrap n (t + k))
    → window (put_header hs p e) at n t c ≡ set (window hs at n t c) k e
unfolding window
window-put_header hs at n t zero k p e h b l inj q = absurd (omega arith)
window-put_header hs at n t (suc c) zero p e h b l inj q =
    let here : wrap n (t + 0) ≡ t = ground arith in
    let first : p ≡ at t = q ∙ ap at here in
    ground (
      arith,
      window-put_header_ne hs at n (succ_in n t) c p e (succ_in-lt n t h) (omega arith)
          (λ k l r. absurd (wrap_ne n t k h (omega arith) (inj _ t (r ∙ first)))),
    )
window-put_header hs at n t (suc c) (suc k) p e h b l inj q =
    let later = wrap-succ_in n t k h (omega arith) in
    ground (
      arith,
      ap at later,
      inj t (wrap n (succ_in n t + k)),
      wrap_ne n t k h (omega arith),
      window-put_header hs at n (succ_in n t) c k p e (succ_in-lt n t h) (omega arith) (omega arith)
          inj (q ∙ ap at (sym later)),
    )

-- The entry with number `k` in the window.
pub get_or-window :
    (hs : Headers) (at : ℕ → ℕ) (n t c k : ℕ) (d : Header)
    → t < n
    → c ≤ n
    → k < c
    → get_or (window hs at n t c) k d ≡ hs (at (wrap n (t + k)))
unfolding window
get_or-window hs at n t zero k d h b l = absurd (omega arith)
get_or-window hs at n t (suc c) zero d h b l = ap (λ (i : ℕ). hs (at i)) (ground arith)
get_or-window hs at n t (suc c) (suc k) d h b l =
    get_or-window hs at n (succ_in n t) c k d (succ_in-lt n t h) (omega arith) (omega arith)
    ∙ ap (λ (i : ℕ). hs (at i)) (wrap-succ_in n t k h (omega arith))
