-- ===== src/PcQueue/Fifo.antt =====
-- What the queue promises: a first-in first-out list of entries, one fewer at most than the ring has
-- places.
use sphde.Base.{
  ℕ, ◌+◌, Bool, true, false, ltb, if◌then◌else◌, Option, none, some, List, [], ◌∷◌, ◌++◌, length,
}
use sphde.Entry.Header.{Header}

-- Room for one more behind the entries.
abbrev pub has_place : ℕ → List Header → Bool
has_place n items = ltb (length items + 1) n

unfoldable pub push : ℕ → Header → List Header → Bool × List Header
push n e items = if has_place n items then (true, items ++ e ∷ []) else (false, items)

-- The oldest entry can be taken when it is complete.
unfoldable pub first_complete : List Header → Option Header
first_complete [] = none
first_complete (e ∷ items) = if e.valid then some e else none

unfoldable pub pop : List Header → Bool × List Header
pop [] = (false, [])
pop (e ∷ items) = if e.valid then (true, items) else (false, e ∷ items)
