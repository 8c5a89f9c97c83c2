-- ===== src/Fracindex/Between.antt =====
-- `KeyBetween` as a whole, with the guard behind the loop.
use retainer.Prelude.{
  ℕ, ◌≡◌, refl, true, false, some, ◌⊎◌, inl, inr, subst, ap, [], ◌∷◌, ◌++◌, append-nil, arith,
  lt_cases, All, All-append, Bool-cases, if◌then◌else◌,
}
use retainer.Prelude.Text.{Text, ◌≺◌, ≺-cons_cases, ≺-nil_cons, not-≺-nil}
use retainer.Fracindex.{
  digit_value, step, walk, ends_in_min, close_key, finish, key_between, alphabet_at,
}
use retainer.Fracindex.Alphabet.{InAlphabet, char-lt-place, min_digit}
use retainer.Fracindex.Walk.{
  Within, walk-Over, step_start_room, step_start_tight, step_less, step_same,
}

-- A key that other keys can be made next to: characters of the alphabet, the last one not '0'.
pub record IsKey (s : Text) : Type 0 where
  pub digits : All InAlphabet s
  pub open_end : ends_in_min s ≡ false

ends_tail : (x y : ℕ) (b : Text) → ends_in_min (x ∷ y ∷ b) ≡ false → ends_in_min (y ∷ b) ≡ false
unfolding ends_in_min
ends_tail x y b h = h

single_not_min : (y : ℕ) → ends_in_min (y ∷ []) ≡ false → y ≡ b'0' → ⊥
unfolding ends_in_min
single_not_min y h e = ground arith

walk-Within :
    (a b : Text)
    → All InAlphabet a
    → All InAlphabet b
    → ends_in_min b ≡ false
    → a ≺ b
    → Within a b (walk a b false)
unfolding walk
walk-Within a [] da db e h = absurd (not-≺-nil a h)
walk-Within [] (y ∷ []) da (d, db) e h = elim (lt_cases 0 d.place) [
  | inl room ↦ step_start_room y [] (λ f. walk [] [] f) d room
  | inr tight ↦ absurd (single_not_min y e (min_digit d (omega arith)))
]
walk-Within [] (y ∷ z ∷ b) da (d, db) e h = elim (lt_cases 0 d.place) [
  | inl room ↦ step_start_room y (z ∷ b) (λ f. walk [] (z ∷ b) f) d room
  | inr tight ↦
      step_start_tight y (z ∷ b) (λ f. walk [] (z ∷ b) f) d (omega arith)
        (walk-Within [] (z ∷ b) da db (ends_tail y z b e) (≺-nil_cons z b))
]
walk-Within (x ∷ a) (y ∷ []) (d, da) (d', db) e h = elim (≺-cons_cases x y a [] h) [
  | inl less ↦
      step_less x y a [] (λ f. walk a [] f) d d' (char-lt-place d d' less)
        (walk-Over a [] true da (inr refl))
  | inr (same, later) ↦ absurd (not-≺-nil a later)
]
walk-Within (x ∷ a) (y ∷ z ∷ b) (d, da) (d', db) e h = elim (≺-cons_cases x y a (z ∷ b) h) [
  | inl less ↦
      step_less x y a (z ∷ b) (λ f. walk a (z ∷ b) f) d d' (char-lt-place d d' less)
        (walk-Over a (z ∷ b) true da (inr refl))
  | inr (same, later) ↦
      subst
        (λ c.
          Within (x ∷ a) (c ∷ z ∷ b)
            (step (digit_value x) (digit_value c) false (λ f. walk a (z ∷ b) f)))
        same
        (step_same x a (z ∷ b) (λ f. walk a (z ∷ b) f) d
          (walk-Within a (z ∷ b) da db (ends_tail y z b e) later))
]

-- What `KeyBetween` appends last.
ending : Text → Text
ending key = if ends_in_min key then b'V' ∷ [] else []

close_key-append : (key : Text) → close_key key ≡ key ++ ending key
unfolding close_key ending
close_key-append key = elim (Bool-cases (ends_in_min key)) [
  | inl e ↦ rw e
  | inr e ↦ rw (e, append-nil key)
]

ends_in_min-append : (key : Text) → ends_in_min (key ++ b'V' ∷ []) ≡ false
unfolding ends_in_min
ends_in_min-append [] = refl
ends_in_min-append (c ∷ []) = refl
ends_in_min-append (c ∷ d ∷ key) = ends_in_min-append (d ∷ key)

v_digit : InAlphabet b'V'
v_digit = record { place = 31; place-lt = omega arith; at_place = unfold alphabet_at in refl }

close_key-IsKey : (key : Text) → All InAlphabet key → IsKey (close_key key)
unfolding close_key
close_key-IsKey key ds = elim (Bool-cases (ends_in_min key)) [
  | inl e ↦ rw e (record {
    digits = All-append InAlphabet key (b'V' ∷ []) ds (v_digit, tt);
    open_end = ends_in_min-append key;
  })
  | inr e ↦ rw e (record { digits = ds; open_end = e })
]

-- `b` is no lower neighbour's limit: there is none, or it lies above `k`.
abbrev pub IsUpperOf : Text → Text → Type 0
IsUpperOf b k = (b ≡ []) ⊎ (k ≺ b)

key_between_found :
    (a b key : Text) → walk a b false ≡ some key → key_between a b ≡ some (close_key key)
unfolding key_between
key_between_found a b key h = ap finish h

-- For neighbours that are keys, `a` below `b` where there is a `b`, KeyBetween ends without a
-- panic, in a key that is above `a`, below `b` where there is a `b`, and itself fit to be a
-- neighbour of later calls.
pub key_between-Between :
    (a b : Text)
    → IsKey a
    → IsKey b
    → IsUpperOf b a
    → (k : Text) × (key_between a b ≡ some k) × (a ≺ k) × IsUpperOf b k × IsKey k
key_between-Between a b ka kb (inl no_upper) =
    let w = walk-Over a b false ka.digits (inl no_upper) in
    (
      close_key w.key,
      key_between_found a b w.key w.found_key,
      rw (close_key-append w.key) (w.above (ending w.key)),
      inl no_upper,
      close_key-IsKey w.key w.digits,
    )
key_between-Between a b ka kb (inr h) =
    let w = walk-Within a b ka.digits kb.digits kb.open_end h in
    (
      close_key w.key,
      key_between_found a b w.key w.found_key,
      rw (close_key-append w.key) (w.above (ending w.key)),
      inr (rw (close_key-append w.key) (w.below (ending w.key))),
      close_key-IsKey w.key w.digits,
    )
