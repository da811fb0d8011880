-- ===== src/PcQueue/Consume.antt =====
-- The consumer's functions of src/sphsinglepcqueue.cpp.
use sphde.Base.{
  add64, ℕ, ◌+◌, ◌-◌, ◌*◌, ◌%◌, ◌^◌, Bool, true, false, not, ◌&&◌, ◌==◌, if◌then◌else◌, Option,
  none, some,
}
use sphde.Entry.Header.{put_header, Handle}
use sphde.PcQueue.Defs.{Queue, next_place, clear_id, alloc_unit}

-- An entry stands at `p` that the producer has completed.
abbrev pub is_ready : Queue → ℕ → Bool
is_ready q p = not (q.qhead == p) && (q.headers p).valid && (q.headers p).allocated

unfoldable pub get_next_complete_direct : Queue → Option ℕ
get_next_complete_direct q = if q.is_pc_queue && is_ready q q.qtail then some q.qtail else none

-- An entry that is allocated, complete or not.
unfoldable pub get_next_entry_direct : Queue → Option ℕ
get_next_entry_direct q =
    if q.is_pc_queue && not (q.qhead == q.qtail) && (q.headers q.qtail).allocated
    then some q.qtail
    else none

-- `SPHSinglePCQueueGetNextComplete`: the sizes come from the entry's own length. For a block of another
-- type the address that it returns is that of `handleorg`, untouched.
unfoldable pub get_next_complete : Queue → Handle → Option Handle
get_next_complete q handleorg =
    let e = q.headers q.qtail in
    let size = e.len * alloc_unit in
    let skip = if e.timestamped then 16 else 4 in
    if not q.is_pc_queue
    then some handleorg
    else if is_ready q q.qtail
    then some record {
      entry = q.qtail;
      next = add64 q.qtail skip;
      total_size = size;
      remaining = (size + 2 ^ 16 - skip) % 2 ^ 16;
    }
    else none

-- The entry is cleared before the tail moves on.
unfoldable pub free_next_entry_direct : Queue → ℕ → Queue × Bool
free_next_entry_direct q p =
    if q.is_pc_queue && is_ready q p
    then (
      record q {
        headers = put_header q.headers p (clear_id (q.headers p));
        qtail = next_place q p;
      },
      true,
    )
    else (q, false)

unfoldable pub free_next_entry : Queue → Queue × Bool
free_next_entry q =
    if q.is_pc_queue && is_ready q q.qtail
    then (
      record q {
        headers = put_header q.headers q.qtail (clear_id (q.headers q.qtail));
        qtail = next_place q q.qtail;
      },
      true,
    )
    else (q, false)
