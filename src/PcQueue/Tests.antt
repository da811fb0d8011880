-- ===== src/PcQueue/Tests.antt =====
-- A queue of 24 places that is made, filled and emptied, and the theorems at its states.
use sphde.Base.{ℕ, ◌-◌, ◌/◌, ◌≡◌, refl, true, false, if◌then◌else◌, none, some, [], ◌∷◌, set, arith}
use sphde.Entry.Header.{Header, Handle}
use sphde.PcQueue.Defs.{Queue, init_internal, round_stride, default_page}
use sphde.PcQueue.Produce.{alloc_stride_entry, entry_complete, fresh_id, handle_at}
use sphde.PcQueue.Consume.{get_next_complete, free_next_entry}
use sphde.PcQueue.Ring.{place, succ_in}
use sphde.PcQueue.Fifo
use sphde.PcQueue.Refine.{Represents, place_of}
use sphde.PcQueue.Operations.{
  alloc_stride_entry_refines, entry_complete_refines, free_next_entry_refines,
}
use sphde.PcQueue.Places.{init_internal-Represents}

abbrev blank : Header
blank = record {
  valid = false;
  timestamped = false;
  allocated = false;
  category = 0;
  subcat = 0;
  len = 0;
  pid = 0;
  tid = 0;
  time_stamp = 0;
}

abbrev start : Queue
start = init_internal (λ _. blank) 65536 1024 32 1

abbrev places : ℕ
places = (1024 - default_page) / round_stride 32

abbrev entry : Header
entry = fresh_id start false 3 5 blank

-- A handle that no call has filled in.
abbrev no_handle : Handle
no_handle = record { entry = 0; next = 0; total_size = 0; remaining = 0 }

abbrev one : Queue
one = (alloc_stride_entry start 3 5 no_handle).1

start-Represents : Represents start places 0 []
start-Represents =
    init_internal-Represents (λ _. blank) 65536 1024 32 1 (omega arith) (omega arith) (omega arith)
      (omega arith) (λ _. (refl, refl))

one-Represents : Represents one places 0 (entry ∷ [])
unfolding Fifo.push round_stride init_internal
one-Represents = (alloc_stride_entry_refines start places 0 3 5 [] no_handle start-Represents).1

alloc_stride_entry_refines_example :
    let (got, q') = alloc_stride_entry one 1 2 no_handle in
    (got ≡ (
      if Fifo.has_place places (entry ∷ [])
      then some (handle_at one (place_of one places 0 1) 4)
      else none))
    × Represents q' places 0
        (Fifo.push places (fresh_id one false 1 2 (one.headers one.qhead)) (entry ∷ [])).1
alloc_stride_entry_refines_example =
    alloc_stride_entry_refines one places 0 1 2 (entry ∷ []) no_handle one-Represents

abbrev first_handle : Handle
first_handle = handle_at one (place_of one places 0 0) 4

entry_complete_refines_example :
    let (q', done) = entry_complete one first_handle in
    (done ≡ true)
    × Represents q' places 0
        (set (entry ∷ []) 0 (record (one.headers first_handle.entry) { valid = true }))
entry_complete_refines_example =
    entry_complete_refines one places 0 0 (entry ∷ []) first_handle one-Represents (omega arith)
      refl

abbrev done : Header
done = record entry { valid = true }

abbrev two : Queue
two = (entry_complete one first_handle).0

two-Represents : Represents two places 0 (done ∷ [])
unfolding round_stride init_internal alloc_stride_entry place
two-Represents = entry_complete_refines_example.1

free_next_entry_refines_example :
    let (q', freed) = free_next_entry two in
    (freed ≡ (Fifo.pop (done ∷ [])).0)
    × Represents q' places (if freed then succ_in places 0 else 0) (Fifo.pop (done ∷ [])).1
free_next_entry_refines_example = free_next_entry_refines two places 0 (done ∷ []) two-Represents

-- A queue with a stride of 8192 bytes.
abbrev wide : Queue
wide = init_internal (λ _. blank) 65536 65536 8192 1

abbrev wide_places : ℕ
wide_places = (65536 - default_page) / round_stride 8192

abbrev wide_one : Queue
wide_one = (alloc_stride_entry wide 3 5 no_handle).1

abbrev wide_handle : Handle
wide_handle = handle_at wide_one (place_of wide_one wide_places 0 0) 4

abbrev wide_two : Queue
wide_two = (entry_complete wide_one wide_handle).0

abbrev wide_done : Header
wide_done = record (fresh_id wide false 3 5 blank) { valid = true }

wide-Represents : Represents wide wide_places 0 []
wide-Represents =
    init_internal-Represents (λ _. blank) 65536 65536 8192 1 (omega arith) (omega arith)
      (omega arith) (omega arith) (λ _. (refl, refl))

wide_one-Represents : Represents wide_one wide_places 0 (fresh_id wide false 3 5 blank ∷ [])
unfolding Fifo.push round_stride init_internal
wide_one-Represents =
    (alloc_stride_entry_refines wide wide_places 0 3 5 [] no_handle wide-Represents).1

wide_two-Represents : Represents wide_two wide_places 0 (wide_done ∷ [])
unfolding round_stride init_internal alloc_stride_entry place
wide_two-Represents =
    (entry_complete_refines wide_one wide_places 0 0 (fresh_id wide false 3 5 blank ∷ [])
      wide_handle wide_one-Represents (omega arith) refl).1

-- The consumer is told of an entry with no bytes.
abbrev wide_got : Handle
wide_got = record { entry = 65792; next = 65796; total_size = 0; remaining = 65532 }

wide_gets : get_next_complete wide_two no_handle ≡ some wide_got
unfolding round_stride init_internal entry_complete alloc_stride_entry place get_next_complete
wide_gets = refl
