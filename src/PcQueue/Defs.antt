-- ===== src/PcQueue/Defs.antt =====
-- The queue's header block, and the functions that create, report on and reset a queue
-- (src/sphsinglepcqueue.cpp).
--
-- `is_pc_queue` is the answer of `SOMSASCheckBlockSigAndType` on the block, which no operation here
-- changes. An address or a size that is 0 where the source returns NULL is `none`.
use Prim.Native.Nat.{bit_and, bit_or}
use sphde.Base.{
  add64, sub64, ℕ, ◌+◌, ◌-◌, ◌*◌, ◌/◌, ◌%◌, ◌^◌, Bool, true, false, not, ◌&&◌, leb, ltb, ◌==◌,
  if◌then◌else◌, Option, none, some,
}
use sphde.Entry.Header.{Header, Headers}

-- `SPHPCQueueHeader`, with the entry headers in the ring by their address.
pub record Queue : Type 0 where
  pub is_pc_queue : Bool
  pub qhead : ℕ
  pub qtail : ℕ
  pub startq : ℕ
  pub endq : ℕ
  pub options : ℕ
  pub stride : ℕ
  pub headers : Headers

-- `p + default_entry_stride`, back to the start at the end of the ring.
abbrev pub next_place : Queue → ℕ → ℕ
next_place q p = let after = add64 p q.stride in if leb q.endq after then q.startq else after

-- The header as `entryID.idUnit = 0` leaves it: every bit field is 0.
abbrev pub clear_id : Header → Header
clear_id e = record e {
  valid = false;
  timestamped = false;
  allocated = false;
  category = 0;
  subcat = 0;
  len = 0;
}

-- `DEFAULT_ALLOC_UNIT`, `DEFAULT_PAGE`
abbrev pub alloc_unit : ℕ
alloc_unit = 16

abbrev pub default_page : ℕ
default_page = 256

-- `(stride + round) & ~round` with `round = DEFAULT_ALLOC_UNIT`: clears the one bit of weight 16.
-- The stride is an `unsigned int`.
unfoldable pub round_stride : ℕ → ℕ
round_stride stride =
    let sum = (stride + alloc_unit) % 2 ^ 32 in sum - sum / alloc_unit % 2 * alloc_unit

-- `SPHSinglePCQueueInitInternal` on the block at `buf_seg`; 0 is `NODEFAULT_ENTRY_STRIDE`. The
-- block's signature and the free space of its header page are set by functions that are not here.
unfoldable pub init_internal : Headers → ℕ → ℕ → ℕ → ℕ → Queue
init_internal headers buf_seg buf_size stride options =
    let rounded = if stride == 0 then 0 else round_stride stride in
    let size = if stride == 0 then buf_size else sub64 buf_size default_page / rounded * rounded in
    let q_start = add64 buf_seg default_page in
    record {
      is_pc_queue = true;
      qhead = q_start;
      qtail = q_start;
      startq = q_start;
      endq = add64 q_start size;
      options = options;
      stride = rounded % 2 ^ 16;
      headers = headers;
    }

unfoldable pub init : Headers → ℕ → ℕ → Queue
unfolding init_internal
init headers buf_seg buf_size = init_internal headers buf_seg buf_size 0 0

unfoldable pub init_with_stride : Headers → ℕ → ℕ → ℕ → ℕ → Queue
unfolding init_internal
init_with_stride headers buf_seg buf_size entry_stride options =
    init_internal headers buf_seg buf_size entry_stride options

-- `none` is -1.
unfoldable pub get_stride : Queue → Option ℕ
get_stride q = if q.is_pc_queue then some q.stride else none

unfoldable pub reset_async : Queue → Queue × ℕ
reset_async q =
    if q.is_pc_queue then (record q { qhead = q.startq; qtail = q.startq }, 0) else (q, 1)

unfoldable pub empty : Queue → Bool
empty q = q.is_pc_queue && (if q.qhead == q.qtail then true else not (q.headers q.qtail).valid)

unfoldable pub full : Queue → Bool
full q = if q.is_pc_queue then next_place q q.qhead == q.qtail else true

unfoldable pub free_space : Queue → ℕ
free_space q =
    let head = next_place q q.qhead in
    if not q.is_pc_queue
    then 0
    else if ltb q.qtail head
    then add64 (sub64 q.endq head) (sub64 q.qtail q.startq)
    else if ltb head q.qtail
    then q.qtail - head
    else 0

abbrev pub prefetch0 : ℕ
prefetch0 = 8

abbrev pub prefetch1 : ℕ
prefetch1 = 16

abbrev pub prefetch_bits : ℕ → ℕ
prefetch_bits prefetch =
    if ltb 1 prefetch
    then if ltb 2 prefetch then bit_or prefetch1 prefetch0 else prefetch1
    else if prefetch == 1
    then prefetch0
    else 0

-- `SPHSinglePCQueueSetCachePrefetch` at a `prefetch` that is not negative.
unfoldable pub set_cache_prefetch : Queue → ℕ → Queue × ℕ
set_cache_prefetch q prefetch =
    if q.is_pc_queue
    then (
      record q {
        options = bit_or (bit_and q.options (bit_or prefetch0 prefetch1)) (prefetch_bits prefetch);
      },
      0,
    )
    else (q, 1)
