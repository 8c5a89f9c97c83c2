-- ===== src/Fracindex/Tests.antt =====
-- The keys that fracindex_test.go and the comments of fracindex.go speak of, and witnesses.
use retainer.Prelude.{◌≡◌, refl, some, [], arith, inr}
use retainer.Prelude.Text.{Text, ◌≺◌, codes, compare_text}
use retainer.Fracindex.{key_between, alphabet_at, ends_in_min}
use retainer.Fracindex.Between.{IsKey, IsUpperOf, key_between-Between}

first_key : key_between [] [] ≡ some (codes "U")
unfolding key_between
first_key = refl

below_one : key_between [] (codes "1") ≡ some (codes "0V")
unfolding key_between
below_one = refl

-- "1" and "10", which break the precondition: nothing lies between them.
past_the_precondition : key_between (codes "1") (codes "10") ≡ some (codes "10U")
unfolding key_between
past_the_precondition = refl

one : IsKey (codes "1")
unfolding alphabet_at ends_in_min
one = record {
  digits = (record { place = 1; place-lt = omega arith; at_place = refl }, tt);
  open_end = refl;
}

two : IsKey (codes "2")
unfolding alphabet_at ends_in_min
two = record {
  digits = (record { place = 2; place-lt = omega arith; at_place = refl }, tt);
  open_end = refl;
}

key_between-Between_example :
    (k : Text) × (key_between (codes "1") (codes "2") ≡ some k)
    × (codes "1" ≺ k)
    × IsUpperOf (codes "2") k
    × IsKey k
unfolding compare_text
key_between-Between_example = key_between-Between (codes "1") (codes "2") one two (inr refl)
