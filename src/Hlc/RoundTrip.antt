-- ===== src/Hlc/RoundTrip.antt =====
-- `Parse` on what `String` prints.
use Prim.Native.Nat.{zero, suc}
use native.Mathlib.Nat.{pow-suc}
use retainer.Prelude.{
  ℕ, ◌+◌, ◌-◌, ◌*◌, ◌/◌, ◌%◌, ◌^◌, ◌<◌, ◌≡◌, ◌≢◌, refl, ap, ◌∙◌, sym, true, false, some, [], ◌∷◌,
  ◌++◌, append_assoc, append-nil, arith, Bool-cases, inl, inr, length, length-append,
  length-replicate, All, All-append, lt→ltb, ◌==◌,
}
use retainer.Prelude.Text.{Text}
use retainer.Prelude.Int.{pos}
use retainer.Hlc.{
  ◌>>=◌, digits, decimal, pad, format_int, to_string, cut, is_digit, scan_digits, scan_number,
  is_space, skip_space, to_int64, to_uint64, scan_sign, scan_int, scan_uint, parse,
}
use retainer.Hlc.Decimal.{zeros, digit, fixed, pad-digits}

abbrev IsDigit : ℕ → Type 0
IsDigit c = is_digit c ≡ true

last-IsDigit : (n : ℕ) → IsDigit (b'0' + n % 10)
unfolding is_digit
last-IsDigit n = ground arith

digits-IsDigit : (f n : ℕ) (out : Text) → All IsDigit out → All IsDigit (digits f n out)
unfolding digits
digits-IsDigit zero n out h = h
digits-IsDigit (suc f) n out h = elim (Bool-cases (n == 0)) [
  | inl e ↦ rw e h
  | inr e ↦ rw e (digits-IsDigit f (n / 10) ((b'0' + n % 10) ∷ out) (last-IsDigit n, h))
]

zeros-IsDigit : (k : ℕ) → All IsDigit (zeros k)
zeros-IsDigit zero = tt
zeros-IsDigit (suc k) = (unfold is_digit in refl, zeros-IsDigit k)

padded-IsDigit : (w n : ℕ) → All IsDigit (pad w (decimal n))
unfolding pad decimal
padded-IsDigit w n =
    All-append IsDigit (zeros (w - length (digits 20 n []))) (digits 20 n []) (zeros-IsDigit _)
      (digits-IsDigit 20 n [] tt)

padded-ne-nil : (w n : ℕ) → 0 < w → pad w (decimal n) ≢ []
unfolding pad
padded-ne-nil w n h e = omega (
  arith,
  ap length e,
  length-append (zeros (w - length (decimal n))) (decimal n),
  length-replicate {A = ℕ} (w - length (decimal n)) b'0',
)

-- The dash behind a run of digits is the first.
cut-append : (p s : Text) → All IsDigit p → cut (p ++ (b'-' ∷ s)) ≡ some (p, s)
unfolding cut is_digit
cut-append [] s h = refl
cut-append (c ∷ p) s (d, h) = rw (cut-append p s h) (ground arith)

scan-zeros : (k : ℕ) (s : Text) → scan_digits (zeros k ++ s) 0 ≡ scan_digits s 0
unfolding scan_digits is_digit
scan-zeros zero s = refl
scan-zeros (suc k) s = scan-zeros k s

scan-digit : (m n : ℕ) (s : Text) → scan_digits (digit n ++ s) m ≡ scan_digits s (m * 10 + n % 10)
unfolding scan_digits is_digit
scan-digit m n s = ground arith

scan-fixed : (w n : ℕ) (s : Text) → n < 10 ^ w → scan_digits (fixed w n ++ s) 0 ≡ scan_digits s n
unfolding fixed
scan-fixed zero n s h = ground arith
scan-fixed (suc w) n s h =
    let e : n / 10 * 10 + n % 10 ≡ n = omega arith in
    ap (λ t. scan_digits t 0) (append_assoc (fixed w (n / 10)) (digit n) s)
    ∙ scan-fixed w (n / 10) (digit n ++ s) (omega (arith, pow-suc 10 w))
    ∙ scan-digit (n / 10) n s
    ∙ ap (scan_digits s) e

scan-pad_any : (w : ℕ) (s : Text) → scan_digits (pad w s) 0 ≡ scan_digits s 0
unfolding pad
scan-pad_any w s = scan-zeros (w - length s) s

scan-nil : (n : ℕ) → scan_digits [] n ≡ n
unfolding scan_digits
scan-nil n = refl

-- The value of a padded number.
scan-pad : (w n : ℕ) → n < 10 ^ 20 → scan_digits (pad w (decimal n)) 0 ≡ n
unfolding decimal
scan-pad w n h =
    scan-pad_any w (digits 20 n [])
    ∙ sym (scan-pad_any 20 (digits 20 n []))
    ∙ ap (λ t. scan_digits t 0)
        ((pad-digits 20 20 n (omega arith) h).1 ∙ sym (append-nil (fixed 20 n)))
    ∙ scan-fixed 20 n [] h
    ∙ scan-nil n

not_space : (c : ℕ) → IsDigit c → is_space c ≡ false
unfolding is_digit is_space
not_space c d = ground arith

not_dash : (c : ℕ) → IsDigit c → (c == b'-') ≡ false
unfolding is_digit
not_dash c d = ground arith

not_plus : (c : ℕ) → IsDigit c → (c == b'+') ≡ false
unfolding is_digit
not_plus c d = ground arith

skip_space-digit : (c : ℕ) (s : Text) → IsDigit c → skip_space (c ∷ s) ≡ c ∷ s
unfolding skip_space
skip_space-digit c s d = rw (not_space c d)

scan_sign-digit :
    (c : ℕ) (s : Text) → IsDigit c → scan_sign (c ∷ s) ≡ (scan_number (c ∷ s) >>= to_int64)
unfolding scan_sign
scan_sign-digit c s d = rw (not_dash c d, not_plus c d)

-- A run of digits goes through the scanners whole.
scan_int-digits : (s : Text) → s ≢ [] → All IsDigit s → scan_int s ≡ to_int64 (scan_digits s 0)
unfolding scan_int scan_number
scan_int-digits [] h d = absurd (h refl)
scan_int-digits (c ∷ s) h (d, ds) = rw (skip_space-digit c s d, scan_sign-digit c s d, d)

scan_uint-digits : (s : Text) → s ≢ [] → All IsDigit s → scan_uint s ≡ to_uint64 (scan_digits s 0)
unfolding scan_uint scan_number
scan_uint-digits [] h d = absurd (h refl)
scan_uint-digits (c ∷ s) h (d, ds) = rw (skip_space-digit c s d, d)

scan_int-pad : (n : ℕ) → n < 2 ^ 63 → scan_int (pad 20 (decimal n)) ≡ some (pos n)
unfolding to_int64
scan_int-pad n h =
    scan_int-digits (pad 20 (decimal n)) (padded-ne-nil 20 n (omega arith)) (padded-IsDigit 20 n)
    ∙ rw (scan-pad 20 n (omega arith), lt→ltb n (2 ^ 63) h)

scan_uint-pad : (n : ℕ) → n < 2 ^ 64 → scan_uint (pad 10 (decimal n)) ≡ some n
unfolding to_uint64
scan_uint-pad n h =
    scan_uint-digits (pad 10 (decimal n)) (padded-ne-nil 10 n (omega arith)) (padded-IsDigit 10 n)
    ∙ rw (scan-pad 10 n (omega arith), lt→ltb n (2 ^ 64) h)

-- A clock with a wall time from 1970 on, in an `int64`, and a counter in a `uint64`, is read back
-- from its print, whatever its device's name is, and also where the counter passes ten digits.
pub parse-to_string :
    (wall counter : ℕ) (device_id : Text)
    → wall < 2 ^ 63
    → counter < 2 ^ 64
    → parse (to_string (record { wall_ms = pos wall; counter = counter; device_id = device_id }))
      ≡ some (record { wall_ms = pos wall; counter = counter; device_id = device_id })
unfolding parse to_string format_int
parse-to_string wall counter device_id h k = rw (
  cut-append (pad 20 (decimal wall)) _ (padded-IsDigit 20 wall),
  cut-append (pad 10 (decimal counter)) device_id (padded-IsDigit 10 counter),
  scan_int-pad wall h,
  scan_uint-pad counter k,
)
