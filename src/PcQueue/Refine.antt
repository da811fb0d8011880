-- ===== src/PcQueue/Refine.antt =====
-- The ring refines the list: each operation on a queue does to its entries what the list promises.
use mathlib.Core.Path.{subst, ap₂}
use mathlib.Core.List.{tail}
use sphde.Base.{
  dec_lt, ℕ, zero, suc, ◌+◌, ◌≤◌, ◌<◌, ◌≡◌, ◌≢◌, ◌↔◌, ap, sym, ◌∙◌, true, false, List, [], ◌∷◌,
  ◌++◌, length, set, arith, length-append, length-set,
}
use sphde.Entry.Header.{Header, put_header}
use sphde.PcQueue.Defs.{Queue, next_place, clear_id}
use sphde.PcQueue.Produce.{has_room}
use sphde.PcQueue.Ring.{
  place, IsRing, next_place-place, place-injective, succ_in, wrap, window, window_snoc,
  wrap-succ_in, succ_in-lt, wrap_ne, window_cons, window-put_header_ne, window-put_header,
}
use sphde.PcQueue.Fifo

abbrev pub AllAllocated : List Header → Type 0
AllAllocated [] = Unit
AllAllocated (e ∷ items) = (e.allocated ≡ true) × AllAllocated items

-- The queue is a ring of `n` places whose entries in use, from index `t` on, are `items`; every other
-- place is neither valid nor allocated.
pub record Represents (q : Queue) (n t : ℕ) (items : List Header) : Type 0 where
  pub ring : IsRing q n
  pub tail_in : t < n
  pub items_in : length items < n
  pub at_tail : q.qtail ≡ place q.startq q.stride t
  pub at_head : q.qhead ≡ place q.startq q.stride (wrap n (t + length items))
  pub held : window q.headers (place q.startq q.stride) n t (length items) ≡ items
  pub in_use : AllAllocated items
  pub unused :
      (k : ℕ)
      → length items ≤ k
      → k < n
      → ((q.headers (place q.startq q.stride (wrap n (t + k)))).allocated ≡ false)
        × ((q.headers (place q.startq q.stride (wrap n (t + k)))).valid ≡ false)

module _ (q : Queue) (n t : ℕ) (items : List Header) (r : Represents q n t items) where
  pub next-head : next_place q q.qhead ≡ place q.startq q.stride (wrap n (t + suc (length items)))
  next-head =
      ap (next_place q) r.at_head
      ∙ next_place-place q n (wrap n (t + length items)) r.ring
          (ground (arith, r.tail_in, r.items_in))
      ∙ ap (place q.startq q.stride) (ground (arith, r.tail_in, r.items_in))

  -- The head stands at the tail exactly when nothing is in use.
  pub head-eq-tail : (q.qhead ≡ q.qtail) ↔ (length items ≡ 0)
  head-eq-tail = (
    λ e. ground (
      arith,
      place-injective q n (wrap n (t + length items)) t r.ring (sym r.at_head ∙ e ∙ r.at_tail),
      r.tail_in,
      r.items_in,
    ),
    λ e. r.at_head ∙ ap (place q.startq q.stride) (ground (arith, r.tail_in)) ∙ sym r.at_tail,
  )

  -- The head meets the tail behind it exactly when the list is full.
  pub next_head-eq-tail : (next_place q q.qhead ≡ q.qtail) ↔ (length items + 1 ≡ n)
  next_head-eq-tail = (
    λ e. ground (
      arith,
      place-injective q n (wrap n (t + suc (length items))) t r.ring
          (sym next-head ∙ e ∙ r.at_tail),
      r.tail_in,
      r.items_in,
    ),
    λ e. next-head ∙ ap (place q.startq q.stride) (ground (arith, r.tail_in)) ∙ sym r.at_tail,
  )

  free_head : ((q.headers q.qhead).allocated ≡ false) × ((q.headers q.qhead).valid ≡ false)
  free_head =
      subst (λ (p : ℕ). ((q.headers p).allocated ≡ false) × ((q.headers p).valid ≡ false))
        (sym r.at_head) (r.unused (length items) (omega arith) r.items_in)

  pub has_room-eq : has_room q ≡ Fifo.has_place n items
  has_room-eq = ground (arith, free_head, next_head-eq-tail, r.items_in)

-- Where the ring keeps the entry with number `k` of those in use.
abbrev pub place_of : Queue → ℕ → ℕ → ℕ → ℕ
place_of q n t k = place q.startq q.stride (wrap n (t + k))

AllAllocated-snoc :
    (items : List Header) (e : Header)
    → AllAllocated items
    → e.allocated ≡ true
    → AllAllocated (items ++ e ∷ [])
AllAllocated-snoc [] e a h = (h, tt)
AllAllocated-snoc (x ∷ items) e a h = (a.0, AllAllocated-snoc items e a.1 h)

AllAllocated-set :
    (items : List Header) (k : ℕ) (e : Header)
    → AllAllocated items
    → e.allocated ≡ true
    → AllAllocated (set items k e)
AllAllocated-set [] k e a h = tt
AllAllocated-set (x ∷ items) zero e a h = (h, a.1)
AllAllocated-set (x ∷ items) (suc k) e a h = (a.0, AllAllocated-set items k e a.1 h)

pub place_of-ne :
    (q : Queue) (n t j k : ℕ)
    → IsRing q n
    → t < n
    → j < n
    → k < n
    → j ≢ k
    → place_of q n t j ≢ place_of q n t k
place_of-ne q n t j k r h hj hk ne e =
    ne (ground (arith, place-injective q n (wrap n (t + j)) (wrap n (t + k)) r e))

-- Writing an allocated header at the head and moving the head on appends it.
pub append-Represents :
    (q : Queue) (n t : ℕ) (items : List Header) (e : Header)
    → Represents q n t items
    → e.allocated ≡ true
    → length items + 1 < n
    → Represents
        (record q { headers = put_header q.headers q.qhead e; qhead = next_place q q.qhead })
        n
        t
        (items ++ e ∷ [])
append-Represents q n t items e r a room =
    let len = length-append items (e ∷ []) in
    let c = length items in
    let at = place q.startq q.stride in
    let hs = put_header q.headers q.qhead e in
    let others = window-put_header_ne q.headers at n t c q.qhead e r.tail_in (omega arith) (λ k l p.
      place_of-ne q n t k c r.ring r.tail_in (omega arith) r.items_in (omega arith)
        (p ∙ r.at_head)) in
    let now : hs (at (wrap n (t + c))) ≡ e = ground (arith, r.at_head) in
    record {
      ring = record {
        typed = r.ring.typed;
        strided = r.ring.strided;
        ring_end = r.ring.ring_end;
        in_space = r.ring.in_space;
      };
      tail_in = r.tail_in;
      items_in = omega (arith, len);
      at_tail = r.at_tail;
      at_head = next-head q n t items r ∙ ap (λ (k : ℕ). place_of q n t k) (omega (arith, len));
      held =
          ap (window hs at n t) (omega (arith, len))
          ∙ window_snoc hs at n t c r.tail_in r.items_in
          ∙ ap₂ (λ (xs : List Header) (x : Header). xs ++ x ∷ []) (others ∙ r.held) now;
      in_use = AllAllocated-snoc items e r.in_use a;
      unused = λ k l h. ground (
        arith,
        len,
        r.unused k (omega (arith, len)) h,
        place_of-ne q n t k c r.ring r.tail_in h r.items_in (omega (arith, len)),
        r.at_head,
      );
    }

-- Writing an allocated header over entry `k` changes that entry.
pub set-Represents :
    (q : Queue) (n t k p : ℕ) (items : List Header) (e : Header)
    → Represents q n t items
    → e.allocated ≡ true
    → k < length items
    → p ≡ place_of q n t k
    → Represents (record q { headers = put_header q.headers p e }) n t (set items k e)
set-Represents q n t k p items e r a h s =
    let len = length-set items k e in
    let c = length items in
    let at = place q.startq q.stride in
    let hs = put_header q.headers p e in
    record {
      ring = record {
        typed = r.ring.typed;
        strided = r.ring.strided;
        ring_end = r.ring.ring_end;
        in_space = r.ring.in_space;
      };
      tail_in = r.tail_in;
      items_in = omega (arith, len, r.items_in);
      at_tail = r.at_tail;
      at_head = r.at_head ∙ ap (λ (k : ℕ). place_of q n t k) (sym len);
      held =
          ap (window hs at n t) len
          ∙ window-put_header q.headers at n t c k p e r.tail_in (omega (arith, r.items_in)) h
              (λ i j. place-injective q n i j r.ring) s
          ∙ ap (λ (xs : List Header). set xs k e) r.held;
      in_use = AllAllocated-set items k e r.in_use a;
      unused = λ j l g. ground (
        arith,
        len,
        r.unused j (omega (arith, len)) g,
        place_of-ne q n t j k r.ring r.tail_in g (omega (arith, r.items_in)) (omega (arith, len)),
        s,
      );
    }

-- Clearing the header at the tail and moving the tail on drops the first entry.
pub tail-Represents :
    (q : Queue) (n t : ℕ) (first : Header) (items : List Header)
    → Represents q n t (first ∷ items)
    → Represents
        (record q {
          headers = put_header q.headers q.qtail (clear_id (q.headers q.qtail));
          qtail = next_place q q.qtail;
        })
        n
        (succ_in n t)
        items
tail-Represents q n t first items r =
    let c = length items in
    let at = place q.startq q.stride in
    let e = clear_id (q.headers q.qtail) in
    let hs = put_header q.headers q.qtail e in
    let t' = succ_in n t in
    let inside = succ_in-lt n t r.tail_in in
    let moved : (k : ℕ) → suc k < n → at (wrap n (t' + k)) ≡ place_of q n t (suc k) =
      λ k h. ap at (wrap-succ_in n t k r.tail_in (omega arith)) in
    let ne_tail : (k : ℕ) → suc k < n → at (wrap n (t' + k)) ≢ q.qtail = λ k h p.
      wrap_ne n t k r.tail_in h (place-injective q n (wrap n (t' + k)) t r.ring (p ∙ r.at_tail)) in
    let behind : window q.headers at n t' c ≡ items =
      ap tail (sym (window_cons q.headers at n t c) ∙ r.held) in
    record {
      ring = record {
        typed = r.ring.typed;
        strided = r.ring.strided;
        ring_end = r.ring.ring_end;
        in_space = r.ring.in_space;
      };
      tail_in = inside;
      items_in = omega (arith, r.items_in);
      at_tail = ap (next_place q) r.at_tail ∙ next_place-place q n t r.ring r.tail_in;
      at_head = r.at_head ∙ sym (moved c r.items_in);
      held =
          window-put_header_ne q.headers at n t' c q.qtail e inside (omega (arith, r.items_in))
            (λ k l. ne_tail k (omega (arith, r.items_in)))
          ∙ behind;
      in_use = r.in_use.1;
      unused = λ k l h. elim (dec_lt (suc k) n) [
        | yes p ↦ ground (arith, r.unused (suc k) (omega arith) p, moved k p, ne_tail k p)
        | no p ↦
            let last : wrap n (t' + k) ≡ t = ground (arith, r.tail_in) in
            ground (arith, ap at last, r.at_tail)
      ];
    }
