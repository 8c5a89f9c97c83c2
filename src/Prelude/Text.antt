-- ===== src/Prelude/Text.antt =====
-- Text that the program walks or orders, as its list of bytes, with the lexicographic order of
-- Go's `strings.Compare`, Go's `<` on strings and SQLite's BINARY collation.
use Prim.Native.Nat.{ℕ, ◌<◌, compare, Ordering}
use Prim.Native.Char.{code}
use Prim.Native.String.{String}
use mathlib.Core.Path.{◌≡◌, refl, subst}
use mathlib.Core.Bool.{Bool, true, false}
use mathlib.Core.Logic.{◌↔◌, ◌⊎◌}
use mathlib.Core.List.{List, [], ◌∷◌, ◌++◌}
use native.Mathlib.Omega.{arith}

abbrev pub Text : Type 0
Text = List ℕ

-- The code points of a literal: its bytes, if it is ASCII.
abbrev pub codes : String → Text
codes String.[] = []
codes (String.◌∷◌ c s) = code c ∷ codes s

-- `strings.Compare`: -1, 0 and 1 are `lt`, `eq` and `gt`.
unfoldable pub compare_text : Text → Text → Ordering
compare_text [] [] = Ordering.eq
compare_text [] (y ∷ ys) = Ordering.lt
compare_text (x ∷ xs) [] = Ordering.gt
compare_text (x ∷ xs) (y ∷ ys) = elim (compare x y) [
  | Ordering.lt ↦ Ordering.lt
  | Ordering.eq ↦ compare_text xs ys
  | Ordering.gt ↦ Ordering.gt
]

infix 50 ◌≺◌
abbrev pub ◌≺◌ : Text → Text → Type 0
a ≺ b = compare_text a b ≡ Ordering.lt

-- `a == b` on strings.
unfoldable pub text_eq : Text → Text → Bool
text_eq a b = elim (compare_text a b) [ Ordering.eq ↦ true | _ ↦ false ]

pub compare_text_refl : (a : Text) → compare_text a a ≡ Ordering.eq
unfolding compare_text
compare_text_refl [] = refl
compare_text_refl (x ∷ a) = ground (arith, compare_text_refl a)

pub compare_text_eq : (a b : Text) → compare_text a b ≡ Ordering.eq → a ≡ b
unfolding compare_text
compare_text_eq [] [] h = refl
compare_text_eq [] (y ∷ b) h = cc
compare_text_eq (x ∷ a) [] h = cc
compare_text_eq (x ∷ a) (y ∷ b) h = ground (arith, compare_text_eq a b)

pub ≺-trans : (a b c : Text) → a ≺ b → b ≺ c → a ≺ c
unfolding compare_text
≺-trans [] [] c h k = cc
≺-trans [] (y ∷ b) [] h k = cc
≺-trans [] (y ∷ b) (z ∷ c) h k = refl
≺-trans (x ∷ a) [] c h k = cc
≺-trans (x ∷ a) (y ∷ b) [] h k = cc
≺-trans (x ∷ a) (y ∷ b) (z ∷ c) h k = ground (arith, ≺-trans a b c)

-- The order is total: what is neither below nor equal is above.
pub compare_text_gt : (a b : Text) → compare_text a b ≡ Ordering.gt → b ≺ a
unfolding compare_text
compare_text_gt [] [] h = cc
compare_text_gt [] (y ∷ b) h = cc
compare_text_gt (x ∷ a) [] h = refl
compare_text_gt (x ∷ a) (y ∷ b) h = ground (arith, compare_text_gt a b)

pub compare_text_lt : (a b : Text) → a ≺ b → compare_text b a ≡ Ordering.gt
unfolding compare_text
compare_text_lt [] [] h = cc
compare_text_lt [] (y ∷ b) h = refl
compare_text_lt (x ∷ a) [] h = cc
compare_text_lt (x ∷ a) (y ∷ b) h = ground (arith, compare_text_lt a b)

pub text_eq_iff : (a b : Text) → (text_eq a b ≡ true) ↔ (a ≡ b)
unfolding text_eq
text_eq_iff a b =
    (λ h. compare_text_eq a b (ground arith), λ e. ground (arith, compare_text_refl a))

-- A text stays above what is below one of its beginnings.
pub ≺-append : (a b x : Text) → a ≺ b → a ≺ (b ++ x)
unfolding compare_text
≺-append [] [] x h = cc
≺-append [] (y ∷ b) x h = refl
≺-append (z ∷ a) [] x h = cc
≺-append (z ∷ a) (y ∷ b) x h = ground (arith, ≺-append a b x)

-- A common beginning does not matter.
pub compare-append_left : (p a b : Text) → compare_text (p ++ a) (p ++ b) ≡ compare_text a b
unfolding compare_text
compare-append_left [] a b = refl
compare-append_left (x ∷ p) a b = ground (arith, compare-append_left p a b)

pub ≺-head : (x y : ℕ) (a b : Text) → x < y → (x ∷ a) ≺ (y ∷ b)
unfolding compare_text
≺-head x y a b h = ground arith

pub ≺-tail : (x : ℕ) (a b : Text) → a ≺ b → (x ∷ a) ≺ (x ∷ b)
unfolding compare_text
≺-tail x a b h = ground arith

pub ≺-cons_cases : (x y : ℕ) (a b : Text) → (x ∷ a) ≺ (y ∷ b) → (x < y) ⊎ ((x ≡ y) × (a ≺ b))
unfolding compare_text
≺-cons_cases x y a b h = ground arith

pub ≺-nil_cons : (y : ℕ) (b : Text) → [] ≺ (y ∷ b)
unfolding compare_text
≺-nil_cons y b = refl

pub not-≺-nil : (a : Text) → a ≺ [] → ⊥
unfolding compare_text
not-≺-nil [] h = cc
not-≺-nil (x ∷ a) h = cc

-- Not above
infix 50 ◌≼◌
abbrev pub ◌≼◌ : Text → Text → Type 0
a ≼ b = ¬ (compare_text a b ≡ Ordering.gt)

pub ≼-of_lt : (a b : Text) → a ≺ b → a ≼ b
≼-of_lt a b h k = cc

pub ≼-of_not_lt : (a b : Text) → ¬ (a ≺ b) → b ≼ a
≼-of_not_lt a b h k = h (compare_text_gt b a k)

pub ≼-trans : (a b c : Text) → a ≼ b → b ≼ c → a ≼ c
≼-trans a b c h k above = below (compare_text a b) refl
  where
    down : c ≺ a
    down = compare_text_gt a c above

    below : (o : Ordering) → compare_text a b ≡ o → ⊥
    below Ordering.lt e = k (compare_text_lt c b (≺-trans c a b down e))
    below Ordering.eq e = k (compare_text_lt c b (subst (λ x. c ≺ x) (compare_text_eq a b e) down))
    below Ordering.gt e = h e
