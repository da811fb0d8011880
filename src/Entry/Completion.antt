-- ===== src/Entry/Completion.antt =====
-- What completing an entry lets its readers see.
use sphde.Base.{ℕ, ◌≡◌, ◌≢◌, refl, true, false, if◌then◌else◌, some, none, arith}
use sphde.Entry.Header.{
  Header, Headers, Handle, strong_complete, weak_complete, complete, is_complete, is_timestamped,
  time_stamp, pid, tid, header, category, subcat,
}

-- What the readers see of an entry that is complete: the fields that its producer set, and the time,
-- process and thread only if it was stamped.
pub record Shows (hs : Headers) (h : Handle) (e : Header) : Type 0 where
  pub seen_complete : is_complete hs h ≡ true
  pub seen_header : header hs h ≡ some h.entry
  pub seen_category : category hs h ≡ some e.category
  pub seen_subcat : subcat hs h ≡ some e.subcat
  pub seen_stamped : is_timestamped hs h ≡ e.timestamped
  pub seen_time : time_stamp hs h ≡ (if e.timestamped then e.time_stamp else 0)
  pub seen_pid : pid hs h ≡ (if e.timestamped then e.pid else 0)
  pub seen_tid : tid hs h ≡ (if e.timestamped then e.tid else 0)

-- Before the completion the readers see nothing of the entry, by it they see all, the entries at
-- other addresses stay, and the three completions are one function.
pub complete_lem :
    (hs : Headers) (h : Handle) (p : ℕ)
    → (hs h.entry).valid ≡ false
    → p ≢ h.entry
    → (category hs h ≡ none)
      × (subcat hs h ≡ none)
      × (header hs h ≡ none)
      × (time_stamp hs h ≡ 0)
      × Shows (complete hs h).0 h (hs h.entry)
      × ((complete hs h).0 p ≡ hs p)
      × (strong_complete hs h ≡ complete hs h)
      × (weak_complete hs h ≡ complete hs h)
unfolding complete strong_complete weak_complete is_complete is_timestamped time_stamp pid tid
    header category subcat
complete_lem hs h p v ne =
    (ground arith, ground arith, ground arith, ground arith, ground arith, ground arith, refl, refl)
