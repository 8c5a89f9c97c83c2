-- ===== src/Hlc/Decimal.antt =====
-- Zero-padded decimals: their digits, their order and their value.
use retainer.Prelude.{
  ℕ, zero, suc, ◌+◌, ◌-◌, ◌/◌, ◌%◌, ◌^◌, ◌<◌, ◌≤◌, ◌≡◌, refl, sym, ◌∙◌, ap, false, Ordering,
  compare, [], ◌∷◌, ◌++◌, append_assoc, append-nil, arith, inl, inr, length, length-append,
  replicate, Bool-cases, ==_iff, ◌==◌,
}
use native.Mathlib.Nat.{pow-suc}
use retainer.Prelude.Text.{Text, compare_text}
use retainer.Hlc.{digits, pad}

abbrev pub zeros : ℕ → Text
zeros w = replicate w b'0'

abbrev pub digit : ℕ → Text
digit n = (b'0' + n % 10) ∷ []

-- The last `w` digits of a number.
unfoldable pub fixed : ℕ → ℕ → Text
fixed zero n = []
fixed (suc w) n = fixed w (n / 10) ++ digit n

zeros_snoc : (w : ℕ) → zeros w ++ digit 0 ≡ zeros (suc w)
zeros_snoc zero = refl
zeros_snoc (suc w) = ap {A = Text} (λ s. b'0' ∷ s) (zeros_snoc w)

fixed_zero : (w : ℕ) → fixed w 0 ≡ zeros w
unfolding fixed
fixed_zero zero = refl
fixed_zero (suc w) = rw (fixed_zero w) (zeros_snoc w)

digits-append : (f n : ℕ) (out : Text) → digits f n out ≡ digits f n [] ++ out
unfolding digits
digits-append zero n out = refl
digits-append (suc f) n out = elim (Bool-cases (n == 0)) [
  | inl e ↦ rw e
  | inr e ↦ rw e (
      digits-append f (n / 10) (digit n ++ out)
      ∙ sym (append_assoc (digits f (n / 10) []) (digit n) out)
      ∙ ap (λ s. s ++ out) (sym (digits-append f (n / 10) (digit n))))
]

digits_zero : (f : ℕ) → digits f 0 [] ≡ []
unfolding digits
digits_zero zero = refl
digits_zero (suc f) = refl

digits_step : (f n : ℕ) → (n == 0) ≡ false → digits (suc f) n [] ≡ digits f (n / 10) [] ++ digit n
unfolding digits
digits_step f n e = rw e (digits-append f (n / 10) (digit n))

-- Padding to a width that the digits fit goes on in front of the last digit.
pad_snoc : (w n : ℕ) (s : Text) → length s ≤ w → pad (suc w) (s ++ digit n) ≡ pad w s ++ digit n
unfolding pad
pad_snoc w n s h =
    let e : suc w - length (s ++ digit n) ≡ w - length s =
      omega (arith, length-append s (digit n)) in
    ap (λ k. zeros k ++ (s ++ digit n)) e ∙ sym (append_assoc (zeros (w - length s)) s (digit n))

fixed-suc : (w n : ℕ) → fixed (suc w) n ≡ fixed w (n / 10) ++ digit n
unfolding fixed
fixed-suc w n = refl

pad_nil : (w : ℕ) → pad w [] ≡ zeros w
unfolding pad
pad_nil w = let e : w - 0 ≡ w = omega arith in ap (λ k. zeros k ++ []) e ∙ append-nil (zeros w)

tenth : (w n : ℕ) → n < 10 ^ suc w → n / 10 < 10 ^ w
tenth w n h = omega (arith, pow-suc 10 w)

-- Below 10 ^ w, padding to `w` gives the last `w` digits.
pub pad-digits :
    (w f n : ℕ)
    → w ≤ f
    → n < 10 ^ w
    → (length (digits f n []) ≤ w) × (pad w (digits f n []) ≡ fixed w n)
pad-digits zero f n h k =
    let e : n ≡ 0 = omega arith in rw (e, digits_zero f) (omega arith, unfold pad fixed in refl)
pad-digits (suc w) zero n h k = absurd (omega arith)
pad-digits (suc w) (suc f) n h k = elim (Bool-cases (n == 0)) [
  | inl e ↦
      let z : n ≡ 0 = (==_iff n 0).0 e in
      rw (z, digits_zero (suc f), fixed_zero (suc w)) (omega arith, pad_nil (suc w))
  | inr e ↦
      let ih = pad-digits w f (n / 10) (omega arith) (tenth w n k) in
      rw (digits_step f n e) (
        omega (arith, length-append (digits f (n / 10) []) (digit n), ih.0),
        pad_snoc w n (digits f (n / 10) []) ih.0
            ∙ ap (λ s. s ++ digit n) ih.1
            ∙ sym (fixed-suc w n),
      )
]

-- A comparison, and the next one where it finds no difference.
abbrev pub lex : Ordering → Ordering → Ordering
lex Ordering.lt r = Ordering.lt
lex Ordering.eq r = r
lex Ordering.gt r = Ordering.gt

compare-digit :
    (m n : ℕ) (s t : Text)
    → compare_text (digit m ++ s) (digit n ++ t)
      ≡ lex (compare (m % 10) (n % 10)) (compare_text s t)
unfolding compare_text
compare-digit m n s t = ground arith

lex-digits :
    (m n : ℕ) (r : Ordering)
    → lex (compare (m / 10) (n / 10)) (lex (compare (m % 10) (n % 10)) r) ≡ lex (compare m n) r
lex-digits m n r = ground arith

-- Two numbers of the same width, each with a text behind it, compare as the pair.
pub compare-fixed :
    (w m n : ℕ) (s t : Text)
    → m < 10 ^ w
    → n < 10 ^ w
    → compare_text (fixed w m ++ s) (fixed w n ++ t) ≡ lex (compare m n) (compare_text s t)
unfolding fixed
compare-fixed zero m n s t h k = ground arith
compare-fixed (suc w) m n s t h k =
    rw (append_assoc (fixed w (m / 10)) (digit m) s, append_assoc (fixed w (n / 10)) (digit n) t)
      (compare-fixed w (m / 10) (n / 10) (digit m ++ s) (digit n ++ t) (tenth w m h) (tenth w n k)
        ∙ ap (lex (compare (m / 10) (n / 10))) (compare-digit m n s t)
        ∙ lex-digits m n (compare_text s t))
