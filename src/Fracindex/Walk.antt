-- ===== src/Fracindex/Walk.antt =====
-- The loop of `KeyBetween`: where it ends, and what its key is compared with.
use retainer.Prelude.{
  ℕ, ◌+◌, ◌-◌, ◌/◌, ◌<◌, ◌≡◌, refl, Bool, true, false, Option, none, some, ◌⊎◌, inl, inr, [], ◌∷◌,
  ◌++◌, arith, lt_cases, All,
}
use retainer.Prelude.Text.{Text, ◌≺◌, ≺-head, ≺-tail, ≺-nil_cons}
use retainer.Fracindex.{digit_value, step, walk}
use retainer.Fracindex.Alphabet.{InAlphabet, digit_value_lem, char_at, place-lt-char}

-- The walk ends with a key above `a`, whatever is appended to it.
pub record Over (a : Text) (found : Option Text) : Type 0 where
  pub key : Text
  pub found_key : found ≡ some key
  pub digits : All InAlphabet key
  pub above : (t : Text) → a ≺ (key ++ t)

-- One round with no upper bound at a digit `x` of `a`.
step_open :
    (x : ℕ) (a : Text) (b_free : Bool) (rest : Bool → Option Text)
    → InAlphabet x
    → Over a (rest true)
    → Over (x ∷ a) (step (digit_value x) 63 b_free rest)
unfolding step
step_open x a b_free rest d ih = elim (lt_cases d.place 61) [
  | inl room ↦
      let (c, e, at) = char_at (d.place + (62 - d.place) / 2) (omega arith) in
      record {
        key = c ∷ [];
        found_key = ground (arith, digit_value_lem d, e.at_place, at);
        digits = (e, tt);
        above = λ t. ≺-head x c a t (place-lt-char d e (omega arith));
      }
  | inr tight ↦ record {
    key = x ∷ ih.key;
    found_key = ground (arith, digit_value_lem d, d.at_place, ih.found_key);
    digits = (d, ih.digits);
    above = λ t. ≺-tail x a (ih.key ++ t) (ih.above t);
  }
]

-- What lies above the walk from here on: nothing.
abbrev pub Unbounded : Text → Bool → Type 0
Unbounded b b_free = (b ≡ []) ⊎ (b_free ≡ true)

start_open : (b_free : Bool) (rest : Bool → Option Text) → Over [] (step 0 63 b_free rest)
unfolding step
start_open b_free rest =
    let (c, e, at) = char_at 30 (omega arith) in
    record {
      key = c ∷ [];
      found_key = ground (arith, e.at_place, at);
      digits = (e, tt);
      above = λ t. ≺-nil_cons c t;
    }

-- With no upper bound the walk ends, above `a`.
pub walk-Over :
    (a b : Text) (b_free : Bool) → All InAlphabet a → Unbounded b b_free → Over a (walk a b b_free)
unfolding walk
walk-Over [] [] b_free _ _ = start_open b_free (λ _. none)
walk-Over [] (y ∷ b) true _ _ = start_open true (λ f. walk [] b f)
walk-Over [] (y ∷ b) false _ u = elim u [ inl e ↦ cc | inr e ↦ cc ]
walk-Over (x ∷ a) [] b_free (d, ds) _ =
    step_open x a b_free (λ f. walk a [] f) d (walk-Over a [] true ds (inr refl))
walk-Over (x ∷ a) (y ∷ b) true (d, ds) _ =
    step_open x a true (λ f. walk a b f) d (walk-Over a b true ds (inr refl))
walk-Over (x ∷ a) (y ∷ b) false (d, ds) u = elim u [ inl e ↦ cc | inr e ↦ cc ]

-- The walk ends with a key strictly between `a` and `b`, whatever is appended to it.
pub record Within (a b : Text) (found : Option Text) : Type 0 where
  pub key : Text
  pub found_key : found ≡ some key
  pub digits : All InAlphabet key
  pub above : (t : Text) → a ≺ (key ++ t)
  pub below : (t : Text) → (key ++ t) ≺ b

-- The end of `a`, above the minimum digit of `b`.
pub step_start_room :
    (y : ℕ) (b : Text) (rest : Bool → Option Text) (e : InAlphabet y)
    → 0 < e.place
    → Within [] (y ∷ b) (step 0 (digit_value y) false rest)
unfolding step
step_start_room y b rest e room =
    let (c, d, at) = char_at ((e.place - 1) / 2) (omega (arith, e.place-lt)) in
    record {
      key = c ∷ [];
      found_key = ground (arith, digit_value_lem e, d.at_place, at);
      digits = (d, tt);
      above = λ t. ≺-nil_cons c t;
      below = λ t. ≺-head c y t b (place-lt-char d e (omega arith));
    }

-- The end of `a`, at the minimum digit of `b`: the key copies it.
pub step_start_tight :
    (y : ℕ) (b : Text) (rest : Bool → Option Text) (e : InAlphabet y)
    → e.place ≡ 0
    → Within [] b (rest false)
    → Within [] (y ∷ b) (step 0 (digit_value y) false rest)
unfolding step
step_start_tight y b rest e tight ih = record {
  key = y ∷ ih.key;
  found_key = ground (arith, digit_value_lem e, e.at_place, ih.found_key);
  digits = (e, ih.digits);
  above = λ t. ≺-nil_cons y (ih.key ++ t);
  below = λ t. ≺-tail y (ih.key ++ t) b (ih.below t);
}

-- Where the digit of `a` is below that of `b`.
pub step_less :
    (x y : ℕ) (a b : Text) (rest : Bool → Option Text) (d : InAlphabet x) (e : InAlphabet y)
    → d.place < e.place
    → Over a (rest true)
    → Within (x ∷ a) (y ∷ b) (step (digit_value x) (digit_value y) false rest)
unfolding step
step_less x y a b rest d e less ih = elim (lt_cases (d.place + 1) e.place) [
  | inl room ↦
      let (c, m, at) = char_at (d.place + (e.place - d.place) / 2) (omega (arith, e.place-lt)) in
      record {
        key = c ∷ [];
        found_key = ground (arith, digit_value_lem d, digit_value_lem e, m.at_place, at);
        digits = (m, tt);
        above = λ t. ≺-head x c a t (place-lt-char d m (omega arith));
        below = λ t. ≺-head c y t b (place-lt-char m e (omega arith));
      }
  | inr tight ↦ record {
    key = x ∷ ih.key;
    found_key = ground (arith, digit_value_lem d, digit_value_lem e, d.at_place, ih.found_key);
    digits = (d, ih.digits);
    above = λ t. ≺-tail x a (ih.key ++ t) (ih.above t);
    below = λ t. ≺-head x y (ih.key ++ t) b (place-lt-char d e less);
  }
]

-- Where the digits are the same the key copies them.
pub step_same :
    (x : ℕ) (a b : Text) (rest : Bool → Option Text) (d : InAlphabet x)
    → Within a b (rest false)
    → Within (x ∷ a) (x ∷ b) (step (digit_value x) (digit_value x) false rest)
unfolding step
step_same x a b rest d ih = record {
  key = x ∷ ih.key;
  found_key = ground (arith, digit_value_lem d, d.at_place, ih.found_key);
  digits = (d, ih.digits);
  above = λ t. ≺-tail x a (ih.key ++ t) (ih.above t);
  below = λ t. ≺-tail x (ih.key ++ t) b (ih.below t);
}
