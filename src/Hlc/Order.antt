-- ===== src/Hlc/Order.antt =====
-- The order of encoded clocks, and of the stamps that `Next` issues.
use retainer.Prelude.{
  ℕ, ◌+◌, ◌-◌, ◌%◌, ◌^◌, ◌<◌, ◌≡◌, refl, ap, ◌∙◌, Ordering, compare, ◌∷◌, ◌++◌, arith, Bool-cases,
  true, false, inl, inr,
}
use retainer.Prelude.Text.{Text, codes, compare_text}
use retainer.Prelude.Int.{pos, leb_ℤ}
use retainer.Hlc.{Clock, pad, digits, decimal, format_int, to_string, compare_clock, next}
use retainer.Hlc.Decimal.{fixed, pad-digits, lex, compare-fixed}

-- A stamp within the widths of the encoding: not before 1970, and a counter of ten digits.
pub record IsStamp (c : Clock) : Type 0 where
  pub wall : ℕ
  pub wall_eq : c.wall_ms ≡ pos wall
  pub wall-lt : wall < 2 ^ 63
  pub counter-lt : c.counter < 10 ^ 10

-- The order that a hybrid logical clock is to have: wall time, then counter, then device.
abbrev pub order : {a b : Clock} → IsStamp a → IsStamp b → Ordering
order {a} {b} sa sb =
    lex (compare sa.wall sb.wall)
      (lex (compare a.counter b.counter) (compare_text a.device_id b.device_id))

encoded :
    (c : Clock) (s : IsStamp c)
    → to_string c ≡ fixed 20 s.wall ++ (b'-' ∷ (fixed 10 c.counter ++ (b'-' ∷ c.device_id)))
unfolding to_string format_int decimal
encoded c s = rw (
  s.wall_eq,
  (pad-digits 20 20 s.wall (omega arith) (omega (arith, s.wall-lt))).1,
  (pad-digits 10 20 c.counter (omega arith) s.counter-lt).1,
)

compare-cons : (x : ℕ) (s t : Text) → compare_text (x ∷ s) (x ∷ t) ≡ compare_text s t
unfolding compare_text
compare-cons x s t = ground arith

-- On stamps within the widths, the plain string comparison of two encoded clocks is their order.
pub compare-to_string :
    (a b : Clock) (sa : IsStamp a) (sb : IsStamp b)
    → compare_clock (to_string a) (to_string b) ≡ order sa sb
unfolding compare_clock
compare-to_string a b sa sb =
    rw (encoded a sa, encoded b sb)
      (compare-fixed 20 sa.wall sb.wall _ _ (omega arith) (omega arith)
        ∙ ap (lex (compare sa.wall sb.wall)) (
            compare-cons b'-' _ _
            ∙ compare-fixed 10 a.counter b.counter _ _ sa.counter-lt sb.counter-lt
            ∙ ap (lex (compare a.counter b.counter)) (compare-cons b'-' a.device_id b.device_id)))

-- The stamps that `Next` issues in its two branches.
abbrev bumped : Clock → Text → Clock
bumped last device_id = record {
  wall_ms = last.wall_ms;
  counter = (last.counter + 1) % 2 ^ 64;
  device_id = device_id;
}

abbrev fresh : Text → ℕ → Clock
fresh device_id now = record { wall_ms = pos now; counter = 0; device_id = device_id }

bumped-IsStamp :
    (last : Clock) (device_id : Text)
    → IsStamp last
    → last.counter + 1 < 10 ^ 10
    → IsStamp (bumped last device_id)
bumped-IsStamp last device_id s h = record {
  wall = s.wall;
  wall_eq = s.wall_eq;
  wall-lt = s.wall-lt;
  counter-lt = omega arith;
}

fresh-IsStamp : (device_id : Text) (now : ℕ) → now < 2 ^ 63 → IsStamp (fresh device_id now)
fresh-IsStamp device_id now h = record {
  wall = now;
  wall_eq = refl;
  wall-lt = h;
  counter-lt = omega arith;
}

-- What a new stamp must be: encodable, after the last one as a string, and not behind the wall.
pub record Advances (last : Clock) (now : ℕ) (c : Clock) : Type 0 where
  pub stamp : IsStamp c
  pub later : compare_clock (to_string last) (to_string c) ≡ Ordering.lt
  pub not_behind : leb_ℤ (pos now) c.wall_ms ≡ true

bumped-Advances :
    (last : Clock) (device_id : Text) (now : ℕ)
    → IsStamp last
    → last.counter + 1 < 10 ^ 10
    → leb_ℤ (pos now) last.wall_ms ≡ true
    → Advances last now (bumped last device_id)
bumped-Advances last device_id now s h e =
    let t = bumped-IsStamp last device_id s h in
    record {
      stamp = t;
      later = compare-to_string last (bumped last device_id) s t ∙ ground arith;
      not_behind = e;
    }

fresh-Advances :
    (last : Clock) (device_id : Text) (now : ℕ)
    → IsStamp last
    → now < 2 ^ 63
    → leb_ℤ (pos now) last.wall_ms ≡ false
    → Advances last now (fresh device_id now)
fresh-Advances last device_id now s h e =
    let t = fresh-IsStamp device_id now h in
    record {
      stamp = t;
      later = compare-to_string last (fresh device_id now) s t ∙ ground (arith, s.wall_eq, e);
      not_behind = ground arith;
    }

-- From a stamp whose counter has room, `Next` issues a stamp that the string comparison puts after
-- the last one, and whose wall time is not behind the present.
pub next-Advances :
    (last : Clock) (device_id : Text) (now : ℕ)
    → IsStamp last
    → last.counter + 1 < 10 ^ 10
    → now < 2 ^ 63
    → Advances last now (next last device_id (pos now))
unfolding next
next-Advances last device_id now s h k = elim (Bool-cases (leb_ℤ (pos now) last.wall_ms)) [
  | inl e ↦ rw e (bumped-Advances last device_id now s h e)
  | inr e ↦ rw e (fresh-Advances last device_id now s k e)
]

-- One more than the largest counter of ten digits takes eleven.
past_width :
    (last : Clock) (device_id : Text) (s : IsStamp last)
    → last.counter ≡ 10 ^ 10 - 1
    → to_string (bumped last device_id)
      ≡ fixed 20 s.wall ++ (b'-' ∷ (codes "10000000000" ++ (b'-' ∷ device_id)))
unfolding to_string format_int decimal
past_width last device_id s full =
    let e : (last.counter + 1) % 2 ^ 64 ≡ 10 ^ 10 = omega arith in
    rw (e, s.wall_eq, (pad-digits 20 20 s.wall (omega arith) (omega (arith, s.wall-lt))).1)
      (unfold pad digits in refl)

nines_above :
    (d e : Text)
    → compare_text
        (b'-' ∷ (fixed 10 (10 ^ 10 - 1) ++ (b'-' ∷ d)))
        (b'-' ∷ (codes "10000000000" ++ (b'-' ∷ e)))
      ≡ Ordering.gt
unfolding compare_text fixed
nines_above d e = refl

lex-compare_self : (n : ℕ) (r : Ordering) → lex (compare n n) r ≡ r
lex-compare_self n r = ground arith

-- Where the counter has used up its ten digits, `Next` within the same millisecond issues a stamp
-- that the string comparison puts before the last one.
pub next_overflow :
    (last : Clock) (device_id : Text) (now : ℕ)
    → IsStamp last
    → last.counter ≡ 10 ^ 10 - 1
    → leb_ℤ (pos now) last.wall_ms ≡ true
    → compare_clock (to_string last) (to_string (next last device_id (pos now))) ≡ Ordering.gt
unfolding next
next_overflow last device_id now s full e =
    rw (e, encoded last s, past_width last device_id s full)
      (unfold compare_clock in
        (compare-fixed 20 s.wall s.wall _ _ (omega (arith, s.wall-lt)) (omega (arith, s.wall-lt))
          ∙ ap (lex (compare s.wall s.wall)) (rw full (nines_above last.device_id device_id))
          ∙ lex-compare_self s.wall Ordering.gt))
