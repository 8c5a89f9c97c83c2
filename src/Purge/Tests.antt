-- ===== src/Purge/Tests.antt =====
-- A sweep like those of sweep_test.go, and witnesses.
use retainer.Prelude.{◌≡◌, refl, some, [], ◌∷◌, length}
use retainer.Prelude.Int.{pos}
use retainer.Schema.{Db, NoteRow, init}
use retainer.Schema.Table.{select}
use retainer.Store.{ok}
use retainer.Sync.Notes.{new_note}
use retainer.Purge.{purge_one, expired, expired_ids, sweep}
use retainer.Purge.Sweep.{without, sweep-without, purge_one-without}

abbrev trashed_note : NoteRow
trashed_note = record (new_note "old" (pos 0) 1) { trashed_at = some (pos 1000) }

abbrev live_note : NoteRow
live_note = new_note "live" (pos 0) 2

abbrev two_notes : Db
two_notes = record init { notes = trashed_note ∷ live_note ∷ []; counter = 2 }

sweep-without_example : sweep 700000000 two_notes ≡ (
  ok (length (expired_ids 700000000 two_notes)),
  without (expired_ids 700000000 two_notes) two_notes,
)
sweep-without_example = sweep-without 700000000 two_notes

one_expired : expired_ids 700000000 two_notes ≡ "old" ∷ []
unfolding expired_ids expired new_note select
one_expired = refl

purge_one-without_example : purge_one "live" two_notes ≡ (ok tt, without ("live" ∷ []) two_notes)
purge_one-without_example = purge_one-without "live" two_notes
