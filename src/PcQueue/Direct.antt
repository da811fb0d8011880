-- ===== src/PcQueue/Direct.antt =====
-- The functions of src/sphdirectpcqueue.h on an entry at its address.
use sphde.Base.{
  add64, align_up, ℕ, ◌+◌, ◌%◌, ◌^◌, Bool, true, ◌&&◌, if◌then◌else◌, Option, none, some,
}
use sphde.Entry.Header.{Header, Headers, put_header}

-- `SPHLFEntryDirectComplete`: one store of the whole identification, from the template.
unfoldable pub complete : Headers → ℕ → Header → ℕ → ℕ → Headers × ℕ
complete hs p template catcode subcode =
    let e = hs p in
    let done = record e {
      valid = true;
      timestamped = template.timestamped;
      allocated = template.allocated;
      category = catcode % 2 ^ 12;
      subcat = subcode % 2 ^ 8;
      len = template.len;
    } in
    (put_header hs p done, 1)

unfoldable pub get_free_ptr : ℕ → ℕ
get_free_ptr p = add64 p 4

-- For an alignment that is a power of two.
unfoldable pub get_ptr_aligned : ℕ → ℕ → ℕ
get_ptr_aligned p align = align_up (p + 4) align

unfoldable pub inc_and_align : ℕ → ℕ → ℕ → ℕ
inc_and_align p inc align = align_up (p + inc) align

unfoldable pub is_complete : Headers → ℕ → Bool
is_complete hs p = (hs p).valid

unfoldable pub is_timestamped : Headers → ℕ → Bool
is_timestamped hs p = (hs p).valid && (hs p).timestamped

-- `none` is -1.
unfoldable pub category : Headers → ℕ → Option ℕ
category hs p = if (hs p).valid then some (hs p).category else none

unfoldable pub subcat : Headers → ℕ → Option ℕ
subcat hs p = if (hs p).valid then some (hs p).subcat else none
