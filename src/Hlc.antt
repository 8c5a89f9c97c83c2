-- ===== src/Hlc.antt =====
-- Hybrid logical clocks: server/internal/hlc/hlc.go. The proofs are in the modules below.
mod Decimal
pub mod Order
pub mod RoundTrip
mod Tests
use retainer.Prelude.{
  ℕ, zero, suc, ◌+◌, ◌-◌, ◌*◌, ◌/◌, ◌%◌, ◌^◌, Bool, true, false, ◌&&◌, ◌||◌, Option, none, some, [],
  ◌∷◌, ◌++◌, List, Ordering, length, replicate, ltb, leb, ◌==◌, if◌then◌else◌,
}
use mathlib.Core.Option
use retainer.Prelude.Text.{Text, codes, compare_text}
use retainer.Prelude.Int.{ℤ, pos, negsuc, leb_ℤ}

-- `WallMs` is an `int64`, `Counter` a `uint64`.
pub record Clock : Type 0 where
  pub wall_ms : ℤ
  pub counter : ℕ
  pub device_id : Text

-- The decimal digits of a number below 10 ^ fuel, in front of `out`.
pub digits : ℕ → ℕ → Text → Text
digits zero n out = out
digits (suc fuel) n out =
    let more = digits fuel (n / 10) ((b'0' + n % 10) ∷ out) in if n == 0 then out else more

-- A 64-bit number has at most 20 digits. fmt prints 0 as no digit under a width, all padding.
pub decimal : ℕ → Text
decimal n = digits 20 n []

-- `%0<w>d`: zeros fill up to the width `w`, behind the sign; a longer number is not cut.
pub pad : ℕ → Text → Text
pad w s = replicate (w - length s) b'0' ++ s

pub format_int : ℕ → ℤ → Text
format_int w (pos n) = pad w (decimal n)
format_int w (negsuc n) = b'-' ∷ pad (w - 1) (decimal (suc n))

-- `Clock.String`
unfoldable pub to_string : Clock → Text
to_string c =
    format_int 20 c.wall_ms ++ (b'-' ∷ (pad 10 (decimal c.counter) ++ (b'-' ∷ c.device_id)))

infixl 5 ◌>>=◌
abbrev pub ◌>>=◌ {ℓ κ} : {A : Type ℓ} {B : Type κ} → Option A → (A → Option B) → Option B
none >>= f = none
some a >>= f = f a

-- What stands before the first dash and behind it: one round of `strings.SplitN(s, "-", 3)`.
pub cut : Text → Option (Text × Text)
cut [] = none
cut (c ∷ s) =
    let rest = cut s in
    if c == b'-' then some ([], s) else Option.map (λ (p : Text × Text). (c ∷ p.0, p.1)) rest

unfoldable pub is_digit : ℕ → Bool
is_digit c = leb b'0' c && leb c b'9'

-- The value of the digits at the front, read behind `n`. Sscanf ignores what follows them.
unfoldable pub scan_digits : Text → ℕ → ℕ
scan_digits [] n = n
scan_digits (c ∷ s) n = if is_digit c then scan_digits s (n * 10 + (c - b'0')) else n

-- Without a digit Sscanf reports an error.
unfoldable pub scan_number : Text → Option ℕ
scan_number [] = none
scan_number (c ∷ s) = if is_digit c then some (scan_digits (c ∷ s) 0) else none

-- The spaces that `%d` skips; a line feed is an error, and so is no digit behind it.
unfoldable pub is_space : ℕ → Bool
is_space c = c == 32 || c == 9 || c == 11 || c == 12 || c == 13

unfoldable pub skip_space : Text → Text
skip_space [] = []
skip_space (c ∷ s) = if is_space c then skip_space s else c ∷ s

-- `strconv`'s range checks behind the scan
unfoldable pub to_int64 : ℕ → Option ℤ
to_int64 n = if ltb n (2 ^ 63) then some (pos n) else none

pub to_negative_int64 : ℕ → Option ℤ
to_negative_int64 zero = some (pos 0)
to_negative_int64 (suc n) = if ltb n (2 ^ 63) then some (negsuc n) else none

pub to_uint64 : ℕ → Option ℕ
to_uint64 n = if ltb n (2 ^ 64) then some n else none

-- `fmt.Sscanf(s, "%d", &wallMs)`, which reads a sign
unfoldable pub scan_sign : Text → Option ℤ
scan_sign [] = none
scan_sign (c ∷ s) =
    if c == b'-'
    then (scan_number s >>= to_negative_int64)
    else if c == b'+'
    then (scan_number s >>= to_int64)
    else (scan_number (c ∷ s) >>= to_int64)

unfoldable pub scan_int : Text → Option ℤ
scan_int s = scan_sign (skip_space s)

-- `fmt.Sscanf(s, "%d", &counter)`, which reads none
pub scan_uint : Text → Option ℕ
scan_uint s = (scan_number (skip_space s) >>= to_uint64)

-- `Parse`; its errors are `none`.
unfoldable pub parse : Text → Option Clock
parse s = do
  (wall, rest) ← cut s
  (counter, device_id) ← cut rest
  w ← scan_int wall
  c ← scan_uint counter
  some (record { wall_ms = w; counter = c; device_id = device_id })

-- `Compare`: -1, 0 and 1 are `lt`, `eq` and `gt`.
unfoldable pub compare_clock : Text → Text → Ordering
compare_clock a b = compare_text a b

-- `Next`, at the wall time `now` in milliseconds; the counter is a `uint64` and wraps around.
unfoldable pub next : Clock → Text → ℤ → Clock
next last device_id now =
    if leb_ℤ now last.wall_ms
    then record {
      wall_ms = last.wall_ms;
      counter = (last.counter + 1) % 2 ^ 64;
      device_id = device_id;
    }
    else record { wall_ms = now; counter = 0; device_id = device_id }
