-- ===== src/Usb/Tests.antt =====
-- kernel/usb: the containers and the rings at concrete values, and the theorems there.
use uhyok_os.Base.{
  ℕ, ◌+◌, ◌*◌, ◌≡◌, refl, Bool, true, not, [], ◌∷◌, none, some, arith, ◌==◌, ==_iff,
}
use uhyok_os.Usb.ArrayMap.{ArrayMap, get, put, delete}
use uhyok_os.Usb.ArrayMap.Entries.{IsEquality, get-put, get-delete}
use uhyok_os.Usb.Ring.{Trb, Ring, EventRing, push, blank}
use uhyok_os.Usb.Ring.Pushing.{Ready, Pushed, push-Pushed}
use uhyok_os.Usb.Ring.Laps.{Lap, push_all, push_all-Lap}
use uhyok_os.Usb.Ring.Events.{pops, pops-lap}

abbrev same_key : ℕ → ℕ → Bool
same_key a b = a == b

same_key-IsEquality : IsEquality same_key
same_key-IsEquality = record { sound = λ a b e. (==_iff a b).0 e; complete = λ a. ground arith }

abbrev waiters : ArrayMap ℕ ℕ
waiters = (some 7, 70) ∷ (none, 0) ∷ (some 9, 90) ∷ []

absent : get same_key 5 waiters ≡ none
unfolding get
absent = refl

get-put_example :
    (get same_key 5 (put same_key 5 50 waiters) ≡ some 50)
    × (get same_key 9 (put same_key 5 50 waiters) ≡ get same_key 9 waiters)
get-put_example =
    get-put same_key 5 9 50 waiters same_key-IsEquality absent (omega arith) (omega arith)

get-delete_example :
    (get same_key 7 (delete same_key 7 waiters) ≡ none)
    × (get same_key 9 (delete same_key 7 waiters) ≡ get same_key 9 waiters)
get-delete_example = get-delete same_key 7 9 waiters same_key-IsEquality (omega arith) (omega arith)

-- A ring of two places, one of them for the link.
abbrev small_ring : Ring
small_ring = record {
  buf = blank ∷ blank ∷ [];
  address = 0x1000;
  buf_size = 2;
  cycle_bit = true;
  write_index = 0;
}

small_ring-Ready : Ready small_ring
small_ring-Ready = record {
  size = refl;
  bounded = omega arith;
  long = omega arith;
  index = omega arith;
}

abbrev no_op : Trb
no_op = record blank { word3 = 0x2000 }

push-Pushed_example : Pushed no_op small_ring (push no_op small_ring)
push-Pushed_example = push-Pushed no_op small_ring small_ring-Ready

abbrev four_events : EventRing
four_events = record { segment_base = 0x2000; segment_size = 4; cycle_bit = true; dequeue = 0x2000 }

pops-lap_example :
    (pops 3 four_events ≡ record four_events { dequeue = 0x2000 + 16 * 3 })
    × (pops 4 four_events ≡ record four_events { cycle_bit = not true; dequeue = 0x2000 })
pops-lap_example =
    pops-lap 3 four_events
      (record { aligned = refl; some_room = omega arith; inside = omega arith }) refl (omega arith)

-- Two blocks fill a ring of three places.
abbrev two_places : Ring
two_places = record {
  buf = blank ∷ blank ∷ blank ∷ [];
  address = 0x1000;
  buf_size = 3;
  cycle_bit = true;
  write_index = 0;
}

push_all-Lap_example :
    Lap (no_op ∷ blank ∷ []) two_places (push_all (no_op ∷ blank ∷ []) two_places)
push_all-Lap_example =
    push_all-Lap (no_op ∷ blank ∷ []) two_places
      (record { size = refl; bounded = omega arith; long = omega arith; index = omega arith })
      (omega arith)
