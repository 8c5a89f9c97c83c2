-- ===== src/Sync/Clocks.antt =====
-- The stamps of one row: the map behind `field_clocks`, and the test that discards an old edit.
use retainer.Prelude.{
  ◌≡◌, refl, String, Bool, true, false, Option, none, some, [], ◌∷◌, Ordering, arith, subst,
  Bool-cases, inl, inr, str_eq, eq_iff, if◌then◌else◌,
}
use text.Mathlib.TextPositions.{eq_refl}
use retainer.Prelude.Text.{
  Text, compare_text_refl, compare_text_eq, compare_text_gt, compare_text_lt, ≺-trans,
}
use retainer.Hlc.{compare_clock}
use retainer.Schema.{Clocks}

-- `clocks[field]`
unfoldable pub lookup : String → Clocks → Option Text
lookup f [] = none
lookup f ((g, h) ∷ cs) = if str_eq g f then some h else lookup f cs

-- `clocks[field] = hlc`
unfoldable pub put : String → Text → Clocks → Clocks
put f h [] = (f, h) ∷ []
put f h ((g, k) ∷ cs) = if str_eq g f then (f, h) ∷ cs else (g, k) ∷ put f h cs

-- `hlc.Compare(a, b) <= 0`
unfoldable pub not_after : Text → Text → Bool
not_after a b = elim (compare_clock a b) [ Ordering.gt ↦ false | _ ↦ true ]

-- `existing, has := clocks[field]; has && hlc.Compare(m.HLC, existing) <= 0`
unfoldable pub stale_against : Option Text → Text → Bool
stale_against none h = false
stale_against (some existing) h = not_after h existing

unfoldable pub stale : Clocks → String → Text → Bool
unfolding lookup stale_against not_after compare_clock
stale clocks field h = stale_against (lookup field clocks) h

pub lookup-put :
    (f g : String) (h : Text) (cs : Clocks)
    → lookup g (put f h cs) ≡ (if str_eq f g then some h else lookup g cs)
unfolding lookup put
lookup-put f g h [] = refl
lookup-put f g h ((i, k) ∷ cs) =
    ground (arith, eq_iff f g, eq_iff i f, eq_iff i g, lookup-put f g h cs)

pub not_after_refl : (h : Text) → not_after h h ≡ true
unfolding not_after compare_clock
not_after_refl h = rw (not_after, compare_text_refl h)

pub not_after_trans :
    (a b c : Text) → not_after a b ≡ true → not_after b c ≡ true → not_after a c ≡ true
unfolding not_after compare_clock
not_after_trans a b c h k =
    ground (arith, compare_text_eq a b, compare_text_eq b c, compare_text_eq a c, ≺-trans a b c)

-- The order is total.
pub not_after_total : (a b : Text) → not_after a b ≡ false → not_after b a ≡ true
unfolding not_after compare_clock
not_after_total a b h = ground (arith, compare_text_gt a b)

-- An edit that was not newer than the stored stamp stays so when the stamp advances.
pub stale_against_mono :
    (o : Option Text) (h k : Text)
    → stale_against o k ≡ false
    → stale_against o h ≡ true
    → not_after h k ≡ true
unfolding stale_against
stale_against_mono none h k f s = cc
stale_against_mono (some e) h k f s = not_after_trans h e k s (not_after_total k e f)

-- The stamps of `cs` have advanced to those of `ds`: what `cs` discards, `ds` discards.
abbrev pub Advanced : Clocks → Clocks → Type 0
Advanced cs ds = (f : String) (h : Text) → stale cs f h ≡ true → stale ds f h ≡ true

pub stale-put_self : (f : String) (h : Text) (cs : Clocks) → stale (put f h cs) f h ≡ true
unfolding stale
stale-put_self f h cs = rw (lookup-put f f h cs, eq_refl f, not_after_refl h)

pub Advanced-put :
    (f : String) (h : Text) (cs : Clocks) → stale cs f h ≡ false → Advanced cs (put f h cs)
unfolding stale
Advanced-put f h cs fresh g k s = elim (Bool-cases (str_eq f g)) [
  | inl same ↦
      let e : f ≡ g = (eq_iff f g).0 same in
      rw (lookup-put f g h cs, same)
        (stale_against_mono (lookup g cs) k h
          (subst (λ x. stale_against (lookup x cs) h ≡ false) e fresh) s)
  | inr other ↦ rw (lookup-put f g h cs, other) s
]

-- A row's first stamp
pub stale_first : (f : String) (h : Text) → stale ((f, h) ∷ []) f h ≡ true
unfolding put
stale_first f h = stale-put_self f h []

pub not_after_antisym : (a b : Text) → not_after a b ≡ true → not_after b a ≡ true → a ≡ b
unfolding not_after compare_clock
not_after_antisym a b h k = ground (arith, compare_text_eq a b, compare_text_lt a b)
