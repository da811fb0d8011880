-- ===== src/PcQueue/Operations.antt =====
-- Each operation on a queue that represents a list of entries does what the list promises, on every
-- branch.
use sphde.Base.{
  zero, suc, ◌&&◌, ℕ, ◌+◌, ◌<◌, ◌≡◌, refl, ap, sym, ◌∙◌, inl, inr, true, false, not, if◌then◌else◌,
  some, none, List, [], ◌∷◌, length, set, get_or, arith, Bool-cases,
}
use sphde.Entry.Header.{Header, put_header, Handle}
use sphde.PcQueue.Defs.{Queue, next_place, full, empty}
use sphde.PcQueue.Produce.{
  alloc_stride_direct, alloc_stride_entry, alloc_stride_time_stamped, has_room, fresh_id, handle_at,
  entry_complete,
}
use sphde.PcQueue.Consume.{free_next_entry, get_next_complete, get_next_complete_direct, is_ready}
use sphde.PcQueue.Ring.{place, window_cons, get_or-window, succ_in, wrap}
use sphde.PcQueue.Fifo
use sphde.PcQueue.Refine.{
  Represents, AllAllocated, place_of, append-Represents, set-Represents, tail-Represents,
  has_room-eq, head-eq-tail, next_head-eq-tail,
}

-- The entry at the tail is the first of the list.
pub first-header :
    (q : Queue) (n t : ℕ) (first : Header) (items : List Header)
    → Represents q n t (first ∷ items)
    → q.headers q.qtail ≡ first
first-header q n t first items r = ground (
  arith,
  ap q.headers r.at_tail,
  sym (window_cons q.headers (place q.startq q.stride) n t (length items)) ∙ r.held,
)

AllAllocated-get_or :
    (items : List Header) (k : ℕ) (d : Header)
    → AllAllocated items
    → k < length items
    → (get_or items k d).allocated ≡ true
AllAllocated-get_or [] k d a l = absurd (omega arith)
AllAllocated-get_or (e ∷ items) zero d a l = a.0
AllAllocated-get_or (e ∷ items) (suc k) d a l = AllAllocated-get_or items k d a.1 (omega arith)

used-allocated :
    (q : Queue) (n t k : ℕ) (items : List Header)
    → Represents q n t items
    → k < length items
    → (q.headers (place_of q n t k)).allocated ≡ true
used-allocated q n t k items r l =
    let at = place q.startq q.stride in
    let found =
      get_or-window q.headers at n t (length items) k (q.headers 0) r.tail_in
        (omega (arith, r.items_in)) l in
    ap (λ (e : Header). e.allocated)
      (sym found ∙ ap (λ (xs : List Header). get_or xs k (q.headers 0)) r.held)
    ∙ AllAllocated-get_or items k (q.headers 0) r.in_use l

-- The test of an allocation.
room_lem :
    (q : Queue) (n t : ℕ) (items : List Header)
    → Represents q n t items
    → (q.is_pc_queue && has_room q) ≡ Fifo.has_place n items
room_lem q n t items r = ground (arith, has_room-eq q n t items r, r.ring.typed)

-- The test of the consumer.
pub ready_lem :
    (q : Queue) (n t : ℕ) (first : Header) (items : List Header)
    → Represents q n t (first ∷ items)
    → (q.is_pc_queue && is_ready q q.qtail) ≡ first.valid
ready_lem q n t first items r = ground (
  arith,
  r.ring.typed,
  head-eq-tail q n t (first ∷ items) r,
  first-header q n t first items r,
  r.in_use.0,
)

ready-nil :
    (q : Queue) (n t : ℕ) → Represents q n t [] → (q.is_pc_queue && is_ready q q.qtail) ≡ false
ready-nil q n t r = ground (arith, r.ring.typed, head-eq-tail q n t [] r)

-- An allocation appends an entry when the list has a place, and returns where it stands; otherwise
-- it returns NULL and the queue is as before.
pub alloc_stride_direct_refines :
    (q : Queue) (n t : ℕ) (items : List Header)
    → Represents q n t items
    → let (got, q') = alloc_stride_direct q in
      (got ≡ (if Fifo.has_place n items then some (place_of q n t (length items)) else none))
      × Represents q' n t (Fifo.push n (fresh_id q false 0 0 (q.headers q.qhead)) items).1
unfolding alloc_stride_direct Fifo.push
alloc_stride_direct_refines q n t items r = elim (Bool-cases (Fifo.has_place n items)) [
  | inl e ↦
      rw (room_lem q n t items r, e)
        (
          ap some r.at_head,
          append-Represents q n t items (fresh_id q false 0 0 (q.headers q.qhead)) r refl
              (ground arith),
        )
  | inr e ↦ rw (room_lem q n t items r, e) (refl, r)
]

alloc_stride_entry-typed :
    (q : Queue) (catcode subcode : ℕ) (handleorg : Handle)
    → q.is_pc_queue ≡ true
    → alloc_stride_entry q catcode subcode handleorg ≡ (
        if q.is_pc_queue && has_room q
        then (
          some (handle_at q q.qhead 4),
          record q {
            headers =
                put_header q.headers q.qhead (fresh_id q false catcode subcode (q.headers q.qhead));
            qhead = next_place q q.qhead;
          },
        )
        else (none, q))
unfolding alloc_stride_entry
alloc_stride_entry-typed q catcode subcode handleorg e = ground (arith, e)

-- On a queue that represents a list of entries, the allocation that fills in a handle appends an entry
-- when the list has a place, and returns a handle that starts 4 bytes into the entry's place; otherwise
-- it returns NULL and the queue is as before.
pub alloc_stride_entry_refines :
    (q : Queue) (n t catcode subcode : ℕ) (items : List Header) (handleorg : Handle)
    → Represents q n t items
    → let (got, q') = alloc_stride_entry q catcode subcode handleorg in
      (got ≡ (
        if Fifo.has_place n items
        then some (handle_at q (place_of q n t (length items)) 4)
        else none))
      × Represents q' n t
          (Fifo.push n (fresh_id q false catcode subcode (q.headers q.qhead)) items).1
unfolding Fifo.push
alloc_stride_entry_refines q n t catcode subcode items handleorg r =
    let typed = alloc_stride_entry-typed q catcode subcode handleorg r.ring.typed in
    elim (Bool-cases (Fifo.has_place n items)) [
      | inl e ↦
          rw (typed, room_lem q n t items r, e)
            (
              ap (λ (p : ℕ). some (handle_at q p 4)) r.at_head,
              append-Represents q n t items (fresh_id q false catcode subcode (q.headers q.qhead)) r
                  refl (ground arith),
            )
      | inr e ↦ rw (typed, room_lem q n t items r, e) (refl, r)
    ]

-- On a block of another type the calls that fill in a handle return the one that they were given, and
-- the allocation leaves the block.
pub handle_calls-untyped :
    (q : Queue) (catcode subcode clock process thread : ℕ) (handleorg : Handle)
    → q.is_pc_queue ≡ false
    → (alloc_stride_entry q catcode subcode handleorg ≡ (some handleorg, q))
      × (alloc_stride_time_stamped q catcode subcode clock process thread handleorg
          ≡ (some handleorg, q))
      × (get_next_complete q handleorg ≡ some handleorg)
unfolding alloc_stride_entry alloc_stride_time_stamped get_next_complete
handle_calls-untyped q catcode subcode clock process thread handleorg e =
    (ground (arith, e), ground (arith, e), ground (arith, e))

entry_complete-allocated :
    (q : Queue) (h : Handle)
    → (q.headers h.entry).allocated ≡ true
    → entry_complete q h ≡ (
      record q {
        headers = put_header q.headers h.entry (record (q.headers h.entry) { valid = true });
      },
      true,
    )
unfolding entry_complete
entry_complete-allocated q h a = ground arith

-- Completing the entry with number `k` makes it valid, and changes no other.
pub entry_complete_refines :
    (q : Queue) (n t k : ℕ) (items : List Header) (h : Handle)
    → Represents q n t items
    → k < length items
    → h.entry ≡ place_of q n t k
    → let (q', done) = entry_complete q h in
      (done ≡ true) × Represents q' n t (set items k (record (q.headers h.entry) { valid = true }))
entry_complete_refines q n t k items h r l e =
    let used : (q.headers h.entry).allocated ≡ true =
      ap (λ (p : ℕ). (q.headers p).allocated) e ∙ used-allocated q n t k items r l in
    rw (entry_complete-allocated q h used) (
      refl,
      set-Represents q n t k h.entry items (record (q.headers h.entry) { valid = true }) r used l e,
    )

-- The consumer is given the oldest entry when it is complete, and NULL otherwise.
pub get_next_complete_direct_lem :
    (q : Queue) (n t : ℕ) (items : List Header)
    → Represents q n t items
    → get_next_complete_direct q
      ≡ elim (Fifo.first_complete items) [ none ↦ none | some e ↦ some (place_of q n t 0) ]
unfolding get_next_complete_direct Fifo.first_complete
get_next_complete_direct_lem q n t [] r = rw (ready-nil q n t r)
get_next_complete_direct_lem q n t (first ∷ items) r =
    let here : wrap n (t + 0) ≡ t = ground (arith, r.tail_in) in
    rw (ready_lem q n t first items r)
      (ground (arith, r.at_tail, ap (place q.startq q.stride) here))

-- Freeing takes the oldest entry off the list when it is complete, and otherwise changes nothing.
pub free_next_entry_refines :
    (q : Queue) (n t : ℕ) (items : List Header)
    → Represents q n t items
    → let (q', done) = free_next_entry q in
      (done ≡ (Fifo.pop items).0)
      × Represents q' n (if done then succ_in n t else t) (Fifo.pop items).1
unfolding free_next_entry Fifo.pop
free_next_entry_refines q n t [] r = rw (ready-nil q n t r) (refl, r)
free_next_entry_refines q n t (first ∷ items) r = elim (Bool-cases first.valid) [
  | inl e ↦ simp (ready_lem q n t first items r, e) (refl, tail-Represents q n t first items r)
  | inr e ↦ simp (ready_lem q n t first items r, e) (refl, r)
]

pub full_lem :
    (q : Queue) (n t : ℕ) (items : List Header)
    → Represents q n t items
    → full q ≡ not (Fifo.has_place n items)
unfolding full
full_lem q n t items r = ground (arith, next_head-eq-tail q n t items r, r.ring.typed, r.items_in)

pub empty_lem :
    (q : Queue) (n t : ℕ) (items : List Header)
    → Represents q n t items
    → empty q ≡ elim (Fifo.first_complete items) [ none ↦ true | some e ↦ false ]
unfolding empty Fifo.first_complete
empty_lem q n t [] r = ground (arith, head-eq-tail q n t [] r, r.ring.typed)
empty_lem q n t (first ∷ items) r =
    ground
      (arith, head-eq-tail q n t (first ∷ items) r, r.ring.typed, first-header q n t first items r)
