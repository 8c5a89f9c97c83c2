-- ===== src/Fracindex/Alphabet.antt =====
-- The digits of the alphabet: `digitValue` against `alphabet[…]`, and their order.
use retainer.Prelude.{
  ℕ, zero, suc, ◌+◌, ◌<◌, ◌≡◌, refl, Bool, true, false, ◌&&◌, Option, none, some, arith, ltb, ◌==◌,
  if◌then◌else◌,
}
use retainer.Fracindex.{base, digit_value, alphabet_at}

-- The alphabet in closed form: digits, capitals, small letters.
char_of : ℕ → ℕ
char_of n = if ltb n 10 then n + 48 else if ltb n 36 then n + 55 else n + 61

agrees : Option ℕ → ℕ → Bool
agrees none d = false
agrees (some c) d = c == d

holds_at : ℕ → Bool
holds_at n = agrees (alphabet_at (suc n)) (char_of n) && digit_value (char_of n) == suc n

-- The digits below the first `n` are where they should be.
table_holds : ℕ → Bool
unfolding holds_at
table_holds zero = true
table_holds (suc n) = if holds_at n then table_holds n else false

entry_holds : (n d : ℕ) → d < n → table_holds n ≡ true → holds_at d ≡ true
unfolding table_holds
entry_holds zero d below h = absurd (omega arith)
entry_holds (suc n) d below h = ground (arith, entry_holds n d)

table : table_holds base ≡ true
unfolding table_holds holds_at alphabet_at agrees char_of digit_value
table = refl

checked : (n : ℕ) → n < 62 → holds_at n ≡ true
checked n h = entry_holds base n h table

agrees_lem : (o : Option ℕ) (d : ℕ) → agrees o d ≡ true → o ≡ some d
unfolding agrees
agrees_lem none d h = cc
agrees_lem (some c) d h = ground arith

at_char : (n : ℕ) → n < 62 → alphabet_at (suc n) ≡ some (char_of n)
unfolding holds_at
at_char n h = agrees_lem (alphabet_at (suc n)) (char_of n) (ground (arith, checked n h))

digit_char : (n : ℕ) → n < 62 → digit_value (char_of n) ≡ suc n
unfolding holds_at
digit_char n h = ground (arith, checked n h)

-- A character of the alphabet, with its place.
pub record InAlphabet (c : ℕ) : Type 0 where
  pub place : ℕ
  pub place-lt : place < 62
  pub at_place : alphabet_at (suc place) ≡ some c

eq_char : {c : ℕ} (d : InAlphabet c) → c ≡ char_of d.place
eq_char {c} d = ground (arith, at_char d.place d.place-lt, d.at_place)

-- `digitValue` finds the place.
pub digit_value_lem : {c : ℕ} (d : InAlphabet c) → digit_value c ≡ suc d.place
digit_value_lem {c} d = rw (eq_char d) (digit_char d.place d.place-lt)

-- Every digit below the base has a character.
pub char_at : (n : ℕ) → n < 62 → (c : ℕ) × (d : InAlphabet c) × (d.place ≡ n)
char_at n h = (char_of n, record { place = n; place-lt = h; at_place = at_char n h }, refl)

char_of_mono : (m n : ℕ) → m < n → char_of m < char_of n
unfolding char_of
char_of_mono m n h = ground arith

-- The order of the characters is the order of their digits.
pub place-lt-char : {c d : ℕ} (p : InAlphabet c) (q : InAlphabet d) → p.place < q.place → c < d
place-lt-char {c} {d} p q h = omega (arith, eq_char p, eq_char q, char_of_mono p.place q.place h)

pub char-lt-place : {c d : ℕ} (p : InAlphabet c) (q : InAlphabet d) → c < d → p.place < q.place
char-lt-place {c} {d} p q h = ground (arith, eq_char p, eq_char q, char_of_mono q.place p.place)

pub min_digit : {c : ℕ} (d : InAlphabet c) → d.place ≡ 0 → c ≡ b'0'
unfolding char_of
min_digit d h = ground (arith, eq_char d)
