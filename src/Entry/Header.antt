-- ===== src/Entry/Header.antt =====
-- The entry header of src/sphlfentry.h, and the functions that complete an entry and report on it.
--
-- Headers are kept by their address. The barriers of the source order the accesses of one thread for
-- others, and leave no trace in the states of one thread.
use sphde.Base.{ℕ, Bool, true, ◌&&◌, ◌==◌, if◌then◌else◌, Option, none, some}

-- `SPHLFEntryHeader_t`: the bit fields of `sphLFEntryLayout_t`, then process, thread and time.
pub record Header : Type 0 where
  pub valid : Bool
  pub timestamped : Bool
  pub allocated : Bool
  pub category : ℕ
  pub subcat : ℕ
  pub len : ℕ
  pub pid : ℕ
  pub tid : ℕ
  pub time_stamp : ℕ

abbrev pub Headers : Type 0
Headers = ℕ → Header

abbrev pub put_header : Headers → ℕ → Header → Headers
put_header hs p h a = if a == p then h else hs a

-- `SPHLFEntryHandle_t`: the entry's address, the next byte, the entry's size, the bytes left.
pub record Handle : Type 0 where
  pub entry : ℕ
  pub next : ℕ
  pub total_size : ℕ
  pub remaining : ℕ

-- A completion returns the headers and its return code.
unfoldable pub strong_complete : Headers → Handle → Headers × ℕ
strong_complete hs h = (put_header hs h.entry (record (hs h.entry) { valid = true }), 0)

unfoldable pub weak_complete : Headers → Handle → Headers × ℕ
weak_complete hs h = (put_header hs h.entry (record (hs h.entry) { valid = true }), 0)

unfoldable pub complete : Headers → Handle → Headers × ℕ
complete hs h = (put_header hs h.entry (record (hs h.entry) { valid = true }), 0)

unfoldable pub is_complete : Headers → Handle → Bool
is_complete hs h = (hs h.entry).valid

unfoldable pub is_timestamped : Headers → Handle → Bool
is_timestamped hs h = (hs h.entry).valid && (hs h.entry).timestamped

unfoldable pub time_stamp : Headers → Handle → ℕ
time_stamp hs h = let e = hs h.entry in if e.valid && e.timestamped then e.time_stamp else 0

unfoldable pub pid : Headers → Handle → ℕ
pid hs h = let e = hs h.entry in if e.valid && e.timestamped then e.pid else 0

unfoldable pub tid : Headers → Handle → ℕ
tid hs h = let e = hs h.entry in if e.valid && e.timestamped then e.tid else 0

-- `none` is the source's NULL.
unfoldable pub header : Headers → Handle → Option ℕ
header hs h = if (hs h.entry).valid then some h.entry else none

-- `none` is the source's -1, which no field of 12 or 8 bits holds.
unfoldable pub category : Headers → Handle → Option ℕ
category hs h = let e = hs h.entry in if e.valid then some e.category else none

unfoldable pub subcat : Headers → Handle → Option ℕ
subcat hs h = let e = hs h.entry in if e.valid then some e.subcat else none
