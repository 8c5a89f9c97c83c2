-- ===== src/Sync/Tests.antt =====
-- Runs on the sample batches, and witnesses.
use mathlib.Core.List.{Memᴰ, Permᴰ}
use retainer.Prelude.{ℕ, ◌≡◌, ◌∙◌, refl, sym, ap, true, false, none, some, List, [], ◌∷◌, map}
use retainer.Prelude.Text.{codes, text_eq, compare_text}
use retainer.Hlc.{compare_clock}
use retainer.Schema.{init}
use retainer.Store.{ok}
use retainer.Sync.{apply}
use retainer.Sync.Samples.{
  at_ten, stamp, note_edit, item_edit, batch, after_batch, answer_of, db_of, run,
}
use retainer.Store.{err, at_mutation, audio_kind}
use retainer.Sync.Notes.{apply_note_mutation}
use retainer.Sync.Indexed.{Current}
use retainer.Sync.Indexed.Notes.{apply_note_mutation-Current}
use retainer.Prelude.Int.{pos}
use retainer.Search.{fts_row, content_blob, item_lines}
use retainer.Search.Reindex.{index_rows}
use retainer.Sync.Outcome.{Outcome}
use retainer.Sync.Resend.{apply_again}
use retainer.Sync.Requests.{Request, serve}
use retainer.Sync.Delta.Answer.{Complete, apply-Complete}
use retainer.Sync.Wire.{
  Mutation, NoteColumn, a_text, decode_text, decode_string, as_value, note_field_columns, bool,
  string,
}
use retainer.Sync.Clocks.{not_after}
use retainer.Sync.Registers.{write, write_decoded, write_one, write_all, decode_at, register_at}
use retainer.Sync.Registers.Refines.{apply-register_at}
use retainer.Sync.Registers.Converge.{Agreeing, apply-Converges}
use retainer.Sync.Pull.{Changes}
use retainer.Store.{Result}
use retainer.Schema.{Db}

-- The older title was discarded: three of the four mutations took a number.
sequence_number : after_batch.counter ≡ 3
unfolding run
sequence_number = refl

titles : map (λ n. n.title) after_batch.notes ≡ codes "Groceries" ∷ []
unfolding run
titles = refl

index : map (λ f. f.content_blob) after_batch.fts ≡ codes "milk" ∷ []
unfolding run
index = refl

batch_applied :
    apply at_ten 0 batch init ≡ (ok (answer_of (apply at_ten 0 batch init).0), after_batch)
unfolding run answer_of
batch_applied = refl

apply_again_example :
    (apply at_ten 3 batch after_batch ≡ apply at_ten 3 [] after_batch)
    × ((apply at_ten 3 batch after_batch).1 ≡ after_batch)
apply_again_example =
    apply_again at_ten at_ten 0 3 batch init after_batch (answer_of (apply at_ten 0 batch init).0)
      batch_applied

-- Another device checks the item, and then fails to make the note an audio note.
abbrev meanwhile : List Request
meanwhile =
    record {
      clock = at_ten;
      since = 3;
      mutations = item_edit "i1" "" "checked" (bool true) (stamp "3-b") ∷ [];
    }
    ∷ record {
      clock = at_ten;
      since = 3;
      mutations = note_edit "n1" "kind" (string (codes "audio")) (stamp "4-b") ∷ [];
    }
    ∷ []

abbrev pulled : Result (ℕ × Changes) × Db
pulled = apply at_ten 3 [] (serve meanwhile after_batch)

pulled_ok : pulled ≡ (ok ((answer_of pulled.0).0, (answer_of pulled.0).1), pulled.1)
unfolding run answer_of serve
pulled_ok = refl

apply-Complete_example :
    ((answer_of pulled.0).0 ≡ pulled.1.counter)
    × Complete after_batch pulled.1 (answer_of pulled.0).1
unfolding run
apply-Complete_example =
    apply-Complete after_batch pulled.1 meanwhile at_ten [] (answer_of pulled.0).0
      (answer_of pulled.0).1 pulled_ok

-- The third mutation makes an audio note, which is refused.
abbrev bad_batch : List Mutation
bad_batch =
    note_edit "n2" "title" (string (codes "Radio")) (stamp "1-a")
    ∷ note_edit "n2" "pinned" (bool true) (stamp "1-a")
    ∷ note_edit "n2" "kind" (string (codes "audio")) (stamp "1-a")
    ∷ []

refused_third : apply at_ten 0 bad_batch after_batch ≡ (err (at_mutation 2 audio_kind), after_batch)
unfolding run
refused_third = refl

abbrev retitled : Result (Unit {0} × Db)
retitled =
    apply_note_mutation (pos 20) (note_edit "n1" "title" (string (codes "Errands")) (stamp "5-a"))
      after_batch

abbrev after_retitling : Db
after_retitling = db_of retitled

retitled_ok : retitled ≡ ok (tt, after_retitling)
unfolding run db_of
retitled_ok = refl

n1-Current : Current "n1" after_batch
unfolding run Current index_rows fts_row content_blob item_lines
n1-Current = refl

apply_note_mutation-Current_example : Current "n1" after_retitling
apply_note_mutation-Current_example =
    apply_note_mutation-Current (pos 20)
      (note_edit "n1" "title" (string (codes "Errands")) (stamp "5-a")) after_batch after_retitling
      retitled_ok "n1" n1-Current

apply-register_at_example :
    register_at "n1" "title" NoteColumn.title after_batch
    ≡ write_all "n1" "title" NoteColumn.title batch (register_at "n1" "title" NoteColumn.title init)
unfolding note_field_columns
apply-register_at_example =
    apply-register_at "n1" "title" NoteColumn.title at_ten 0 batch init after_batch
      (answer_of (apply at_ten 0 batch init).0) refl batch_applied

title_register :
    write_all "n1" "title" NoteColumn.title batch (none, a_text [])
    ≡ (some (stamp "1-a"), a_text (codes "Groceries"))
unfolding write_all write_one write write_decoded decode_at decode_text decode_string as_value
    not_after compare_clock compare_text
title_register = refl

-- Two devices name a new note.
abbrev names : List Mutation
names =
    note_edit "n3" "title" (string (codes "Ideas")) (stamp "6-a")
    ∷ note_edit "n3" "title" (string (codes "Plans")) (stamp "6-b")
    ∷ []

abbrev swapped : List Mutation
swapped =
    note_edit "n3" "title" (string (codes "Plans")) (stamp "6-b")
    ∷ note_edit "n3" "title" (string (codes "Ideas")) (stamp "6-a")
    ∷ []

abbrev named : Result (ℕ × Changes) × Db
named = apply at_ten 3 names after_batch

abbrev named_swapped : Result (ℕ × Changes) × Db
named_swapped = apply at_ten 0 swapped after_batch

named_ok : named ≡ (ok (answer_of named.0), named.1)
unfolding run answer_of
named_ok = refl

named_swapped_ok : named_swapped ≡ (ok (answer_of named_swapped.0), named_swapped.1)
unfolding run answer_of
named_swapped_ok = refl

stamps_apart : stamp "6-a" ≡ stamp "6-b" → ⊥
unfolding text_eq compare_text
stamps_apart e = let h : true ≡ false = ap (text_eq (stamp "6-a")) e in cc h

names-Agreeing : Agreeing "n3" "title" names
unfolding Agreeing
names-Agreeing m n (Memᴰ.head e) (Memᴰ.head f) x y same = ap (λ (r : Mutation). r.value) (e ∙ sym f)
names-Agreeing m n (Memᴰ.head e) (Memᴰ.tail (Memᴰ.head f)) x y same =
    elim (stamps_apart
      (sym (ap (λ (r : Mutation). r.hlc) e) ∙ same ∙ ap (λ (r : Mutation). r.hlc) f)) [ ]
names-Agreeing m n (Memᴰ.tail (Memᴰ.head e)) (Memᴰ.head f) x y same =
    elim (stamps_apart
      (sym (ap (λ (r : Mutation). r.hlc) f) ∙ sym same ∙ ap (λ (r : Mutation). r.hlc) e)) [ ]
names-Agreeing m n (Memᴰ.tail (Memᴰ.head e)) (Memᴰ.tail (Memᴰ.head f)) x y same =
    ap (λ (r : Mutation). r.value) (e ∙ sym f)
names-Agreeing m n (Memᴰ.head e) (Memᴰ.tail (Memᴰ.tail k)) x y same = elim k [ ]
names-Agreeing m n (Memᴰ.tail (Memᴰ.head e)) (Memᴰ.tail (Memᴰ.tail k)) x y same = elim k [ ]
names-Agreeing m n (Memᴰ.tail (Memᴰ.tail k)) in_n x y same = elim k [ ]

apply-Converges_example :
    register_at "n3" "title" NoteColumn.title named.1
    ≡ register_at "n3" "title" NoteColumn.title named_swapped.1
unfolding note_field_columns
apply-Converges_example =
    apply-Converges "n3" "title" NoteColumn.title at_ten at_ten 3 0 names swapped after_batch
      named.1 named_swapped.1 (answer_of named.0) (answer_of named_swapped.0) refl
      (Permᴰ.swap refl refl) names-Agreeing named_ok named_swapped_ok
