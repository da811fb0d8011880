-- ===== src/Entry/Tests.antt =====
-- An entry of 64 bytes, filled and read, and the theorems at it.
use sphde.Base.{ℕ, ◌<◌, ◌≡◌, refl, true, false, List, [], ◌∷◌, some, none, arith, map}
use sphde.Entry.Memory.{Memory, load, store, read_bytes}
use sphde.Entry.Header.{Handle, Headers}
use sphde.Entry.Handle.{
  add_string, get_next_string, two, four, eight, add_value, get_value, add_int,
}
use sphde.Entry.Bounds.{IsSound, add_int_overruns}
use sphde.Entry.Roundtrip.{Field, add_all, get_all, get_all-add_all}
use sphde.Entry.Text.{get_next_string-add_string}

abbrev zeros : Memory
zeros = λ _. 0

-- Behind a header of 4 bytes at 4096.
abbrev fresh : Handle
fresh = record { entry = 4096; next = 4100; total_size = 64; remaining = 60 }

fresh-IsSound : IsSound fresh
fresh-IsSound = omega arith

abbrev fields : List Field
fields =
    record { width = two; value = 513 }
    ∷ record { width = eight; value = 123456789012 }
    ∷ record { width = four; value = 77 }
    ∷ []

abbrev filled : Memory × Handle
filled = elim (add_all fields zeros fresh) [ none ↦ (zeros, fresh) | some r ↦ r ]

fill_runs : add_all fields zeros fresh ≡ some filled
unfolding add_all add_value
fill_runs = refl

read_runs : get_all fields filled.0 fresh ≡ 513 ∷ 123456789012 ∷ 77 ∷ []
unfolding add_all get_all add_value get_value load store
read_runs = refl

-- One byte is left, and the next multiple of 4 is 3 bytes on.
abbrev tight : Handle
tight = record { entry = 4096; next = 4157; total_size = 62; remaining = 1 }

add_int_overruns_example :
    ((add_int 7 zeros tight).0 ≡ true) × (4158 < (add_int 7 zeros tight).2.next)
add_int_overruns_example = add_int_overruns 7 zeros tight (omega arith) (omega arith)

get_all-add_all_example : get_all fields filled.0 fresh ≡ map (λ f. f.value) fields
get_all-add_all_example =
    get_all-add_all fields zeros fresh filled.0 filled.1 fresh-IsSound (omega arith) fill_runs

abbrev word : List ℕ
word = 104 ∷ 105 ∷ []

get_next_string-add_string_example :
    (get_next_string (add_string word zeros fresh).1 fresh
      ≡ (some 4100, (add_string word zeros fresh).2))
    × (read_bytes (add_string word zeros fresh).1 4100 2 ≡ word)
unfolding add_string
get_next_string-add_string_example =
    get_next_string-add_string word zeros (add_string word zeros fresh).1 fresh (omega arith)
      (omega arith) fresh-IsSound refl (λ a l. refl)

-- An entry that is allocated and stamped, and not complete.
abbrev open_entries : Headers
open_entries = λ _. record {
  valid = false;
  timestamped = true;
  allocated = true;
  category = 3;
  subcat = 5;
  len = 4;
  pid = 17;
  tid = 18;
  time_stamp = 1000;
}
