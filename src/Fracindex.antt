-- ===== src/Fracindex.antt =====
-- Position keys: server/internal/fracindex/fracindex.go. The proofs are in the modules below.
mod Alphabet
mod Walk
pub mod Between
mod Tests
use retainer.Prelude.{
  ℕ, zero, suc, ◌+◌, ◌-◌, ◌/◌, Bool, true, false, Option, none, some, [], ◌∷◌, ◌++◌, get_elem?, ltb,
  ◌==◌, if◌then◌else◌,
}
use retainer.Prelude.Text.{Text, codes}

abbrev pub alphabet : Text
alphabet = codes "0123456789ABCDEFGHIJKLMNOPQRSTUVWXYZabcdefghijklmnopqrstuvwxyz"

abbrev pub base : ℕ
base = 62

-- One more than the place of `c` in the list, and 0 where it is not there.
place : ℕ → Text → ℕ → ℕ
place c [] i = 0
place c (d ∷ ds) i = if c == d then i + 1 else place c ds (i + 1)

-- `digitValue[c] + 1`. Digits stand one higher here than in the source, so that its -1, for a
-- character outside the alphabet and for the end of `a`, is 0, and its `base` is 63.
pub digit_value : ℕ → ℕ
unfolding place
digit_value c = place c alphabet 0

-- `alphabet[d]` for a digit that stands one higher; the index -1 panics, which is `none`.
pub alphabet_at : ℕ → Option ℕ
alphabet_at zero = none
alphabet_at (suc d) = get_elem? alphabet d

-- `append(result, …)` before the rest of the walk
push : Option ℕ → Option Text → Option Text
push none rest = none
push (some c) none = none
push (some c) (some rest) = some (c ∷ rest)

-- One round of the loop at the digits `da` and `db`. `rest` is the walk from the next position
-- on, which is given `bFree`.
pub step : ℕ → ℕ → Bool → (Bool → Option Text) → Option Text
unfolding push
step da db b_free rest =
    if da == db
    then push (alphabet_at da) (rest b_free)
    else if ltb 1 (db - da)
    then push (alphabet_at (da + (db - da) / 2)) (some [])
    else if ltb 0 da
    then push (alphabet_at da) (rest true)
    else push (alphabet_at db) (rest b_free)

-- The digit that bounds the walk from above: `b`'s, unless `b` no longer constrains it.
pub upper : Bool → ℕ → ℕ
upper true y = base + 1
upper false y = digit_value y

-- The loop: what it appends from a position on, given what is left of `a` and of `b` there.
-- Past both ends the digits are -1 and `base`, so the loop ends and `rest` is not read.
pub walk : Text → Text → Bool → Option Text
unfolding step upper
walk [] [] b_free = step 0 (base + 1) b_free (λ _. none)
walk [] (y ∷ b) b_free = step 0 (upper b_free y) b_free (λ f. walk [] b f)
walk (x ∷ a) [] b_free = step (digit_value x) (base + 1) b_free (λ f. walk a [] f)
walk (x ∷ a) (y ∷ b) b_free = step (digit_value x) (upper b_free y) b_free (λ f. walk a b f)

-- Whether the last character is the alphabet's minimum digit.
pub ends_in_min : Text → Bool
ends_in_min [] = false
ends_in_min (c ∷ []) = c == b'0'
ends_in_min (c ∷ d ∷ s) = ends_in_min (d ∷ s)

-- `alphabet[base/2]` goes behind a key that would end in the minimum digit.
pub close_key : Text → Text
close_key key = if ends_in_min key then key ++ b'V' ∷ [] else key

-- What follows the loop; `none` is a panic.
pub finish : Option Text → Option Text
finish none = none
finish (some key) = some (close_key key)

unfoldable pub key_between : Text → Text → Option Text
unfolding walk finish close_key digit_value alphabet_at ends_in_min
key_between a b = finish (walk a b false)
