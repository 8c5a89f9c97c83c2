-- ===== src/Hlc/Tests.antt =====
-- Clocks of hlc_test.go, and witnesses.
use retainer.Prelude.{◌≡◌, refl, some, arith, Ordering}
use retainer.Prelude.Text.{codes}
use retainer.Prelude.Int.{pos}
use retainer.Hlc.{Clock, to_string, compare_clock, next, parse}
use retainer.Hlc.Order.{IsStamp, order, compare-to_string, Advances, next-Advances, next_overflow}
use retainer.Hlc.RoundTrip.{parse-to_string}

abbrev phone : Clock
phone = record { wall_ms = pos 1000; counter = 7; device_id = codes "phone-1" }

abbrev web : Clock
web = record { wall_ms = pos 1000; counter = 12; device_id = codes "web" }

abbrev full : Clock
full = record { wall_ms = pos 1000; counter = 9999999999; device_id = codes "web" }

phone-IsStamp : IsStamp phone
phone-IsStamp = record {
  wall = 1000;
  wall_eq = refl;
  wall-lt = omega arith;
  counter-lt = omega arith;
}

web-IsStamp : IsStamp web
web-IsStamp = record {
  wall = 1000;
  wall_eq = refl;
  wall-lt = omega arith;
  counter-lt = omega arith;
}

full-IsStamp : IsStamp full
full-IsStamp = record {
  wall = 1000;
  wall_eq = refl;
  wall-lt = omega arith;
  counter-lt = omega arith;
}

compare-to_string_example :
    compare_clock (to_string phone) (to_string web) ≡ order phone-IsStamp web-IsStamp
compare-to_string_example = compare-to_string phone web phone-IsStamp web-IsStamp

next-Advances_example : Advances phone 900 (next phone (codes "phone-1") (pos 900))
next-Advances_example =
    next-Advances phone (codes "phone-1") 900 phone-IsStamp (omega arith) (omega arith)

next_overflow_example :
    compare_clock (to_string full) (to_string (next full (codes "web") (pos 1000))) ≡ Ordering.gt
next_overflow_example = next_overflow full (codes "web") 1000 full-IsStamp refl refl

parse-to_string_example :
    parse (to_string (record { wall_ms = pos 1000; counter = 7; device_id = codes "phone-1" }))
    ≡ some phone
parse-to_string_example = parse-to_string 1000 7 (codes "phone-1") (omega arith) (omega arith)
