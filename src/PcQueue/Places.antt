-- ===== src/PcQueue/Places.antt =====
-- Where entries lie: creation, the free space, and the handles that producer and consumer get.
use native.Mathlib.Nat.{mul-le-mul_right, div-mul-le_self, le-div_iff_mul-le}
use sphde.Base.{
  ℕ, ◌+◌, ◌-◌, ◌*◌, ◌/◌, ◌%◌, ◌^◌, ◌≤◌, ◌<◌, ◌≡◌, ◌≢◌, refl, ap, ◌∙◌, inl, inr, ◌⊎◌, suc, Bool,
  true, false, none, not, ◌==◌, if◌then◌else◌, some, List, [], ◌∷◌, length, arith, dec_lt,
}
use sphde.Entry.Header.{Header, Headers, Handle}
use sphde.Entry.Bounds.{IsSound}
use sphde.PcQueue.Defs.{
  Queue, full, empty, next_place, free_space, round_stride, init_internal, default_page,
}
use sphde.PcQueue.Produce.{handle_at, fresh_id}
use sphde.PcQueue.Consume.{get_next_complete}
use sphde.PcQueue.Ring.{window, place, IsRing, wrap}
use sphde.PcQueue.Refine.{Represents, place_of, next-head}
use sphde.PcQueue.Fifo
use sphde.PcQueue.Operations.{full_lem, empty_lem, ready_lem, first-header}

-- What the rounding of a stride does: an odd number of units is raised by one unit, and the bytes
-- over a unit stay.
pub round_stride_lem :
    (stride : ℕ)
    → stride + 16 < 2 ^ 32
    → round_stride stride ≡ (if stride / 16 % 2 == 0 then stride else stride + 16)
unfolding round_stride
round_stride_lem stride h = ground arith

-- So a stride that is not a multiple of the unit stays so: the places of the ring are then not
-- aligned to it.
pub round_stride_unaligned :
    (stride : ℕ) → stride + 16 < 2 ^ 32 → stride % 16 ≢ 0 → round_stride stride % 16 ≢ 0
unfolding round_stride
round_stride_unaligned stride h ne = omega arith

-- A queue made with a stride represents no entries, on as many places as fit behind the header page.
pub init_internal-Represents :
    (hs : Headers) (buf_seg buf_size stride options : ℕ)
    → 0 < stride
    → stride + 16 < 2 ^ 16
    → buf_seg + buf_size + stride + 16 < 2 ^ 64
    → default_page + (stride + 16) ≤ buf_size
    → ((p : ℕ) → ((hs p).allocated ≡ false) × ((hs p).valid ≡ false))
    → let q = init_internal hs buf_seg buf_size stride options in
      Represents q ((buf_size - default_page) / round_stride stride) 0 []
unfolding init_internal place window
init_internal-Represents hs buf_seg buf_size stride options pos small space room clear =
    let r = round_stride stride in
    let rounded = round_stride_lem stride (omega arith) in
    let low : stride ≤ r = ground (arith, rounded) in
    let high : r ≤ stride + 16 = ground (arith, rounded) in
    let fits : (buf_size - default_page) / r * r ≤ buf_size - default_page =
      div-mul-le_self (buf_size - default_page) r in
    let some_places : 0 < (buf_size - default_page) / r =
      (le-div_iff_mul-le {k = r} (omega arith)).1 (omega arith) in
    record {
      ring = record {
        typed = refl;
        strided = ground arith;
        ring_end = ground arith;
        in_space = ground arith;
      };
      tail_in = some_places;
      items_in = some_places;
      at_tail = ground arith;
      at_head = ground arith;
      held = refl;
      in_use = tt;
      unused = λ k l h. clear _;
    }

-- The handle that a producer gets covers its entry's place to the end, and is sound where the ring is
-- aligned.
pub handle_at-IsSound :
    (q : Queue) (n m i skip : ℕ)
    → IsRing q n
    → q.startq % 16 ≡ 0
    → q.stride ≡ 16 * m
    → q.stride < 2 ^ 16
    → i < n
    → skip ≤ 16
    → let p = place q.startq q.stride i in
      IsSound (handle_at q p skip)
      × ((handle_at q p skip).next ≡ p + skip)
      × ((handle_at q p skip).next + (handle_at q p skip).remaining ≡ p + q.stride)
unfolding place
handle_at-IsSound q n m i skip r a e s h k =
    let below = mul-le-mul_right {m = i + 1} {n = n} q.stride (omega arith) in
    let whole : i * q.stride ≡ 16 * (i * m) = ap (λ (x : ℕ). i * x) e ∙ omega arith in
    let units = r.strided in omega (arith, below, whole, r.ring_end, r.in_space, units)

-- The consumer's handle on the oldest entry is the one that its producer got, for strides that the
-- entry's length field holds.
pub get_next_complete_lem :
    (q : Queue) (n t m catcode subcode : ℕ) (stamped : Bool) (old first : Header)
    (items : List Header) (handleorg : Handle)
    → Represents q n t (first ∷ items)
    → first ≡ record (fresh_id q stamped catcode subcode old) { valid = true }
    → q.stride ≡ 16 * m
    → q.stride < 4096
    → get_next_complete q handleorg
      ≡ some (handle_at q (place_of q n t 0) (if stamped then 16 else 4))
unfolding get_next_complete
get_next_complete_lem q n t m catcode subcode stamped old first items handleorg r e a s =
    let here : wrap n (t + 0) ≡ t = ground (arith, r.tail_in) in
    ground (
      arith,
      r.ring.typed,
      ready_lem q n t first items r,
      first-header q n t first items r,
      r.at_tail,
      ap (place q.startq q.stride) here,
    )

-- For a longer stride the length field has wrapped, and the consumer's handle has another size.
pub get_next_complete_wraps :
    (q : Queue) (n t catcode subcode : ℕ) (stamped : Bool) (old first : Header)
    (items : List Header) (handleorg h : Handle)
    → Represents q n t (first ∷ items)
    → first ≡ record (fresh_id q stamped catcode subcode old) { valid = true }
    → 4096 ≤ q.stride
    → get_next_complete q handleorg ≡ some h
    → h.total_size < 4096
unfolding get_next_complete
get_next_complete_wraps q n t catcode subcode stamped old first items handleorg h r e s g =
    ground (arith, r.ring.typed, ready_lem q n t first items r, first-header q n t first items r)

-- The space between head and tail, which stand at the places `j` and `t`.
free_space_at :
    (q : Queue) (n t j d : ℕ)
    → IsRing q n
    → t < n
    → j < n
    → q.qtail ≡ q.startq + t * q.stride
    → next_place q q.qhead ≡ q.startq + j * q.stride
    → ((t < j) × (n + t ≡ d + j)) ⊎ ((j ≤ t) × (t ≡ d + j))
    → free_space q ≡ d * q.stride
unfolding free_space
free_space_at q n t j d r ht hj at_tail at_head (inl (ahead, gap)) = ground (
  arith,
  r,
  at_head,
  mul-le-mul_right {m = t + 1} {n = j} q.stride (omega arith),
  mul-le-mul_right {m = j} {n = n} q.stride (omega arith),
  ap (λ (x : ℕ). x * q.stride) gap,
)
free_space_at q n t j d r ht hj at_tail at_head (inr (behind, gap)) = ground (
  arith,
  r,
  at_head,
  mul-le-mul_right {m = j} {n = t} q.stride behind,
  mul-le-mul_right {m = t} {n = n} q.stride (omega arith),
  ap (λ (x : ℕ). x * q.stride) gap,
)

free_space_lem :
    (q : Queue) (n t : ℕ) (items : List Header)
    → Represents q n t items
    → free_space q ≡ (n - 1 - length items) * q.stride
unfolding place
free_space_lem q n t items r =
    let c = length items in
    let j = wrap n (t + suc c) in
    free_space_at q n t j (n - 1 - c) r.ring r.tail_in (ground (arith, r.tail_in, r.items_in))
      r.at_tail (next-head q n t items r)
      (elim (dec_lt (t + suc c) n) [
        | yes p ↦ inl (ground (arith, p), ground (arith, p))
        | no p ↦ inr (ground (arith, p, r.items_in), ground (arith, p, r.items_in))
      ])

-- What a queue reports of the list that it represents: that it is full, exactly where no place is left;
-- that it is empty, exactly where no complete entry is in front; and as its free space the places left
-- times the stride.
pub reports_lem :
    (q : Queue) (n t : ℕ) (items : List Header)
    → Represents q n t items
    → (full q ≡ not (Fifo.has_place n items))
      × (empty q ≡ elim (Fifo.first_complete items) [ none ↦ true | some e ↦ false ])
      × (free_space q ≡ (n - 1 - length items) * q.stride)
reports_lem q n t items r =
    (full_lem q n t items r, empty_lem q n t items r, free_space_lem q n t items r)
