-- ===== src/Search/Query.antt =====
-- The sanitized query as FTS5's lexer reads it.
use retainer.Prelude.{true, false, Option, none, some, List, [], ◌∷◌, ◌++◌, ◌==◌}
use retainer.Prelude.Text.{Text}

-- Where FTS5's lexer stands: between phrases, in a quoted phrase that has read `w`, or behind a
-- quote in it, which ends the phrase unless another quote follows.
data Mode : Type 0 where
  outside : Mode
  inside : Text → Mode
  closing : Text → Mode

abbrev pub cons_phrase : Text → Option (List Text) → Option (List Text)
cons_phrase w none = none
cons_phrase w (some ws) = some (w ∷ ws)

-- The phrases of a MATCH expression that is made of quoted strings and spaces alone; `none` for
-- an unbalanced quote, and for a bare word or an operator.
read : Mode → Text → Option (List Text)
read outside [] = some []
read (inside w) [] = none
read (closing w) [] = some (w ∷ [])
read outside (c ∷ s) = elim (c == b'"') [
  | true ↦ read (inside []) s
  | false ↦ elim (c == b' ') [ true ↦ read outside s | false ↦ none ]
]
read (inside w) (c ∷ s) = elim (c == b'"') [
  | true ↦ read (closing w) s
  | false ↦ read (inside (w ++ c ∷ [])) s
]
read (closing w) (c ∷ s) = elim (c == b'"') [
  | true ↦ read (inside (w ++ b'"' ∷ [])) s
  | false ↦ elim (c == b' ') [ true ↦ cons_phrase w (read outside s) | false ↦ none ]
]

pub phrases : Text → Option (List Text)
phrases q = read outside q
