-- ===== src/PcQueue/Produce.antt =====
-- The producer's functions of src/sphsinglepcqueue.cpp. A pointer that is NULL on failure is `none`.
use sphde.Base.{
  add64, ℕ, ◌+◌, ◌-◌, ◌/◌, ◌%◌, ◌^◌, Bool, true, false, not, ◌&&◌, ◌==◌, if◌then◌else◌, Option,
  none, some,
}
use sphde.Entry.Header.{Header, put_header, Handle}
use sphde.PcQueue.Defs.{Queue, next_place, clear_id, alloc_unit}

-- What `entrytemp` is set to: category and sub-category go into 12 and 8 bits, the number of units
-- into 8.
abbrev pub fresh_id : Queue → Bool → ℕ → ℕ → Header → Header
fresh_id q stamped catcode subcode e = record e {
  valid = false;
  timestamped = stamped;
  allocated = true;
  category = catcode % 2 ^ 12;
  subcat = subcode % 2 ^ 8;
  len = q.stride / alloc_unit % 2 ^ 8;
}

-- The test of every allocation: a place is left, and the entry at the head is neither valid nor
-- allocated.
abbrev pub has_room : Queue → Bool
has_room q =
    not (next_place q q.qhead == q.qtail)
    && not (q.headers q.qhead).valid
    && not (q.headers q.qhead).allocated

unfoldable pub alloc_raw : Queue → Option ℕ × Queue
alloc_raw q =
    let head = next_place q q.qhead in
    if q.is_pc_queue && not (head == q.qtail)
    then (some q.qhead, record q { qhead = head })
    else (none, q)

unfoldable pub alloc_stride_direct : Queue → Option ℕ × Queue
alloc_stride_direct q =
    if q.is_pc_queue && has_room q
    then (
      some q.qhead,
      record q {
        headers = put_header q.headers q.qhead (fresh_id q false 0 0 (q.headers q.qhead));
        qhead = next_place q q.qhead;
      },
    )
    else (none, q)

-- `handlespace` as an allocation fills it, the data behind `skip` bytes of header. A function that is
-- given the address of a handle returns that address or NULL: `some` is the handle as it stands there
-- on return, which for a block of another type is `handleorg`, untouched.
abbrev pub handle_at : Queue → ℕ → ℕ → Handle
handle_at q entry skip = record {
  entry = entry;
  next = add64 entry skip;
  total_size = q.stride;
  remaining = (q.stride + 2 ^ 16 - skip) % 2 ^ 16;
}

unfoldable pub alloc_stride_entry : Queue → ℕ → ℕ → Handle → Option Handle × Queue
alloc_stride_entry q catcode subcode handleorg =
    if not q.is_pc_queue
    then (some handleorg, q)
    else if has_room q
    then (
      some (handle_at q q.qhead 4),
      record q {
        headers =
            put_header q.headers q.qhead (fresh_id q false catcode subcode (q.headers q.qhead));
        qhead = next_place q q.qhead;
      },
    )
    else (none, q)

-- The clock, the process and the thread are what `sphgettimer`, `sphFastGetPID` and `sphFastGetTID`
-- return.
unfoldable pub alloc_stride_time_stamped :
    Queue → ℕ → ℕ → ℕ → ℕ → ℕ → Handle → Option Handle × Queue
alloc_stride_time_stamped q catcode subcode clock process thread handleorg =
    let stamped = record (fresh_id q true catcode subcode (q.headers q.qhead)) {
      time_stamp = clock;
      pid = process;
      tid = thread;
    } in
    if not q.is_pc_queue
    then (some handleorg, q)
    else if has_room q
    then (
      some (handle_at q q.qhead 16),
      record q { headers = put_header q.headers q.qhead stamped; qhead = next_place q q.qhead },
    )
    else (none, q)

-- `SPHSinglePCQueueGetEntryTemplate`: the bit fields alone.
unfoldable pub get_entry_template : Queue → Header
get_entry_template q =
    let zeros = clear_id (q.headers 0) in
    if q.is_pc_queue then fresh_id q false 0 0 zeros else zeros

-- `SPHSinglePCQueueEntryComplete`: only an allocated entry becomes valid.
unfoldable pub entry_complete : Queue → Handle → Queue × Bool
entry_complete q h =
    let e = q.headers h.entry in
    if e.allocated
    then (record q { headers = put_header q.headers h.entry (record e { valid = true }) }, true)
    else (q, false)

unfoldable pub entry_is_complete : Queue → Handle → Bool
entry_is_complete q h = (q.headers h.entry).valid
